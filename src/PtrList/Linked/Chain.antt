-- ===== src/PtrList/Linked/Chain.antt =====
-- The nodes in memory that stand for the nodes of a list, and the functions that walk along them.
use ez_rtos.Base.{
  ℕ, zero, suc, ◌<◌, ◌≡◌, refl, sym, ap, ◌∙◌, ◌≢◌, inl, inr, true, false, Option, none, some, List,
  [], ◌∷◌, arith, ◌==◌, ==_refl, ==_ne, Bool-cases, length, Ptr, null,
}
use ez_rtos.PtrList.{Node, first_addr, successor, last_addr, add_last, find_ptr}
use ez_rtos.PtrList.Cycle.{has_addr, AreNodes}
use ez_rtos.PtrList.Linked.{Entry, Nodes, write_entry, findtail_loop, ptrlist_find}

-- Each node is in memory, and points to the one behind it.
abbrev pub IsLinked : Nodes → List Node → Type 0
IsLinked s [] = Unit {0}
IsLinked s (n ∷ ns) =
    (s n.addr ≡ some (record { ptr = n.ptr; next = first_addr ns })) × IsLinked s ns

pub IsLinked-write :
    (s : Nodes) (p : Ptr) (e : Option Entry) (ns : List Node)
    → has_addr ns p ≡ false
    → IsLinked s ns
    → IsLinked (write_entry s p e) ns
IsLinked-write s p e [] h l = tt
IsLinked-write s p e (n ∷ ns) h (at, l) = (ground arith, IsLinked-write s p e ns (ground arith) l)

-- An address that holds nothing is no node's.
pub fresh-has_addr :
    (s : Nodes) (p : Ptr) (ns : List Node) → s p ≡ none → IsLinked s ns → has_addr ns p ≡ false
fresh-has_addr s p [] f l = refl
fresh-has_addr s p (n ∷ ns) f (at, l) =
    let apart : (n.addr == p) ≡ false = ==_ne n.addr p (λ e. ne e) in
    rw apart (fresh-has_addr s p ns f l)
  where
    some_none : {e : Entry} → ◌≢◌ {A = Option Entry} (some e) none
    some_none h = cc

    ne : n.addr ≢ p
    ne e = some_none (sym at ∙ ap s e ∙ f)

pub successor-next :
    (s : Nodes) (c : Ptr) (ns : List Node)
    → IsLinked s ns
    → has_addr ns c ≡ true
    → (e : Entry) × (s c ≡ some e) × (successor c ns ≡ some e.next)
unfolding successor
successor-next s c [] l h = absurd (false_ne h)
  where
    false_ne : false ≢ true
    false_ne e = cc
successor-next s c (n ∷ ns) (at, l) h = elim (Bool-cases (n.addr == c)) [
  | inl here ↦
      let same : n.addr ≡ c = ground arith in
      (record { ptr = n.ptr; next = first_addr ns }, ap s (sym same) ∙ at, rw here refl)
  | inr apart ↦ let (e, r, h') = successor-next s c ns l (ground arith) in (e, r, rw apart h')
]

pub findtail_loop-last :
    (k : ℕ) (s : Nodes) (n : Node) (ns : List Node)
    → IsLinked s (n ∷ ns)
    → AreNodes (n ∷ ns)
    → length ns < k
    → findtail_loop k s n.addr ≡ some (last_addr n.addr ns)
unfolding findtail_loop last_addr
findtail_loop-last zero s n ns l a h = absurd (omega (arith, h))
findtail_loop-last (suc k) s n [] (at, l) a h = rw (findtail_loop, at) refl
findtail_loop-last (suc k) s n (m ∷ ms) (at, l) a h =
    let there : (m.addr == null) ≡ false = ==_ne m.addr null (a.2.0) in
    rw (findtail_loop, at, there) (findtail_loop-last k s m ms l (a.2) (omega (arith, h)))

pub ptrlist_find-find_ptr :
    (k : ℕ) (s : Nodes) (p : Ptr) (ns : List Node)
    → IsLinked s ns
    → AreNodes ns
    → length ns < k
    → ptrlist_find k s (first_addr ns) p ≡ some (find_ptr p ns)
unfolding ptrlist_find find_ptr
ptrlist_find-find_ptr zero s p ns l a h = absurd (omega (arith, h))
ptrlist_find-find_ptr (suc k) s p [] l a h = refl
ptrlist_find-find_ptr (suc k) s p (n ∷ ns) (at, l) a h =
    let there : (n.addr == null) ≡ false = ==_ne n.addr null (a.0) in
    elim (Bool-cases (n.ptr == p)) [
      | inl hit ↦ rw (ptrlist_find, there, at, hit) refl
      | inr miss ↦
          rw (ptrlist_find, there, at, miss)
            (ptrlist_find-find_ptr k s p ns l (a.2) (omega (arith, h)))
    ]

-- The new node behind the last one.
pub link_last-IsLinked :
    (s : Nodes) (n : Node) (ns : List Node) (e : Node)
    → IsLinked s (n ∷ ns)
    → AreNodes (n ∷ ns)
    → has_addr (n ∷ ns) e.addr ≡ false
    → s e.addr ≡ some (record { ptr = e.ptr; next = null })
    → (t : Entry) × (s (last_addr n.addr ns) ≡ some t)
      × IsLinked
          (write_entry s (last_addr n.addr ns) (some (record t { next = e.addr })))
          (n ∷ add_last ns e)
unfolding last_addr add_last
link_last-IsLinked s n [] e (at, l) a h new =
    let apart : (n.addr == e.addr) ≡ false = ground arith in
    (record { ptr = n.ptr; next = null }, at, (rw (==_refl n.addr) refl, (rw apart new, tt)))
link_last-IsLinked s n (m ∷ ms) e (at, l) (nn, na, a) h new =
    let (t, r, l') = link_last-IsLinked s m ms e l a (ground arith) new in
    let apart = last-apart m ms n.addr na in (t, r, (rw apart at, l'))
  where
    last-apart :
        (m : Node) (ms : List Node) (q : Ptr)
        → has_addr (m ∷ ms) q ≡ false
        → (last_addr m.addr ms == q) ≡ false
    last-apart m [] q h = ground arith
    last-apart m (o ∷ os) q h = last-apart o os q (ground arith)
