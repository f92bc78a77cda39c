-- ===== src/PtrList/Linked/Same.antt =====
-- The calls that add a node or walk along the nodes do the same in memory and on the list.
use mathlib.Core.Option
use ez_rtos.Base.{
  ℕ, suc, ◌+◌, ◌<◌, ◌≡◌, refl, sym, ap, ◌∙◌, ◌≢◌, inl, inr, Bool, true, false, Option, none, some,
  List, [], ◌∷◌, arith, ◌==◌, if◌then◌else◌, ==_refl, ==_ne, Bool-cases, length, Ptr, null,
}
use ez_rtos.PtrList
use ez_rtos.PtrList.{Node, PtrList, nodes, first_addr, no_nodes, is_empty, add_last, last_addr}
use ez_rtos.PtrList.Cycle.{has_addr, AreNodes}
use ez_rtos.PtrList.Linked
use ez_rtos.PtrList.Linked.{Entry, Nodes, write_entry}
use ez_rtos.PtrList.Linked.Chain.{
  IsLinked, IsLinked-write, fresh-has_addr, successor-next, findtail_loop-last,
  ptrlist_find-find_ptr, link_last-IsLinked,
}
use ez_rtos.PtrList.Linked.Calls.{add_ptr, on_nodes, on_list, IsList}

-- Both fail, or both return the same value, and what they leave still corresponds.
pub data SameCall (a : Ptr) (l : PtrList) : Option (ℕ × Nodes) → Option (ℕ × PtrList) → Type 0 where
  fails : SameCall a l none none
  returns :
      {s' : Nodes} {l' : PtrList} (v : ℕ)
      → IsList s' a l'
      → length l'.next < suc (suc (length l.next))
      → SameCall a l (some (v, s')) (some (v, l'))

pub same_list :
    (s : Nodes) (a : Ptr) (l : PtrList) (v : ℕ)
    → IsList s a l
    → SameCall a l (some (v, s)) (some (v, l))
same_list s a l v i = returns v i (omega arith)

pub null_free-write :
    (s : Nodes) (p : Ptr) (e : Option Entry)
    → p ≢ null
    → s null ≡ none
    → write_entry s p e null ≡ none
null_free-write s p e n z = let apart : (p == null) ≡ false = ==_ne p null n in rw apart z

pub next-SameCall :
    (s : Nodes) (l : PtrList) (c : Ptr)
    → IsList s l.addr l
    → has_addr (nodes l) c ≡ true
    → Linked.ptrlist_cnext s l.addr c ≡ PtrList.ptrlist_cnext l c
unfolding Linked.ptrlist_cnext PtrList.ptrlist_cnext
next-SameCall s l c i h =
    let (e, r, f) = successor-next s c (nodes l) i.linked h in
    rw (Linked.ptrlist_cnext, PtrList.ptrlist_cnext, r, f) (pushed _ _ (e.next == null))
  where
    pushed :
        (x y : Ptr) (b : Bool)
        → ◌≡◌ {A = Option Ptr} (some (if b then x else y)) (if b then some x else some y)
    pushed x y true = refl
    pushed x y false = refl

pub tail-same :
    (n : ℕ) (s : Nodes) (l : PtrList)
    → IsLinked s (nodes l)
    → AreNodes (nodes l)
    → length l.next < n
    → Linked.ptrlist_findtail n s l.addr ≡ some (PtrList.ptrlist_findtail l)
unfolding Linked.ptrlist_findtail PtrList.ptrlist_findtail
tail-same n s l k a h =
    let there : (l.addr == null) ≡ false = ==_ne l.addr null (a.0) in
    rw (Linked.ptrlist_findtail, there)
      (findtail_loop-last n s (record { addr = l.addr; ptr = l.ptr }) l.next k a h)

pub find-same :
    (n : ℕ) (s : Nodes) (l : PtrList) (p : Ptr)
    → IsLinked s (nodes l)
    → AreNodes (nodes l)
    → length l.next + 1 < n
    → Linked.ptrlist_find n s l.addr p ≡ some (PtrList.ptrlist_find l p)
unfolding PtrList.ptrlist_find
find-same n s l p k a h = ptrlist_find-find_ptr n s p (nodes l) k a (omega (arith, h))

pub destroy-SameCall :
    (s : Nodes) (l : PtrList)
    → IsList s l.addr l
    → SameCall l.addr l
        (Option.map (λ s'. (0, s')) (Linked.ptrlist_destroy s l.addr))
        (Option.map (λ l'. (0, l')) (PtrList.ptrlist_destroy l))
unfolding Linked.ptrlist_destroy PtrList.ptrlist_destroy
destroy-SameCall s l i = by_next l.next i.linked i.distinct
  where
    by_next :
        (ns : List Node)
        → IsLinked s (record { addr = l.addr; ptr = l.ptr } ∷ ns)
        → AreNodes (record { addr = l.addr; ptr = l.ptr } ∷ ns)
        → SameCall l.addr l (Option.map (λ s'. (0, s')) (Linked.ptrlist_destroy s l.addr)) (
            Option.map
              (λ l'. (0, l'))
              (elim ns [ [] ↦ none | _ ∷ _ ↦ some (PtrList.empty l.addr) ]))
    by_next [] (at, _) a = rw (Linked.ptrlist_destroy, at) fails
    by_next (m ∷ ms) (at, _) (nn, _, (nm, _, _)) =
        let there : (m.addr == null) ≡ false = ==_ne m.addr null nm in
        rw (Linked.ptrlist_destroy, at, there)
          (returns 0
            (record {
              head = refl;
              linked = (rw (==_refl l.addr) refl, tt);
              distinct = (nn, refl, tt);
              null_free = null_free-write s l.addr (some Linked.unused_entry) nn i.null_free;
            })
            (omega arith))

first_addr-no_nodes : (ns : List Node) → AreNodes ns → (first_addr ns == null) ≡ no_nodes ns
first_addr-no_nodes [] a = refl
first_addr-no_nodes (n ∷ ns) a = ==_ne n.addr null (a.0)

length-add_last : (ns : List Node) (e : Node) → length (add_last ns e) ≡ suc (length ns)
unfolding add_last
length-add_last [] e = refl
length-add_last (n ∷ ns) e = ap suc (length-add_last ns e)

has_addr-add_last :
    (ns : List Node) (e : Node) (q : Ptr)
    → has_addr ns q ≡ false
    → (e.addr == q) ≡ false
    → has_addr (add_last ns e) q ≡ false
unfolding add_last
has_addr-add_last [] e q h h' = rw h' refl
has_addr-add_last (n ∷ ns) e q h h' =
    let rest = has_addr-add_last ns e q (ground arith) h' in ground arith

AreNodes-add_last :
    (ns : List Node) (e : Node)
    → AreNodes ns
    → has_addr ns e.addr ≡ false
    → e.addr ≢ null
    → AreNodes (add_last ns e)
unfolding add_last
AreNodes-add_last [] e a h n = (n, refl, tt)
AreNodes-add_last (m ∷ ms) e (nm, ma, a) h n =
    (nm, has_addr-add_last ms e m.addr ma (ground arith), AreNodes-add_last ms e a (ground arith) n)

some_ne_none : {e : Entry} → ◌≢◌ {A = Option Entry} (some e) none
some_ne_none h = cc

-- The list with the pointer in a new node at `e`.
link-SameCall :
    (n : ℕ) (s : Nodes) (l : PtrList) (p e : Ptr)
    → IsList s l.addr l
    → length l.next + 1 < n
    → s e ≡ none
    → e ≢ null
    → SameCall l.addr l
        (Linked.link_last n s l.addr p e)
        (some (e, record l { next = add_last l.next (record { addr = e; ptr = p }) }))
unfolding Linked.link_last PtrList.ptrlist_findtail add_last
link-SameCall n s l p e i few fresh ne =
    let new : Node = record { addr = e; ptr = p } in
    let s1 : Nodes = write_entry s e (some (record { ptr = p; next = null })) in
    let outside = fresh-has_addr s e (nodes l) fresh i.linked in
    let linked =
      IsLinked-write s e (some (record { ptr = p; next = null })) (nodes l) outside i.linked in
    let found : Linked.ptrlist_findtail n s1 l.addr ≡ some (last_addr l.addr l.next) =
      tail-same n s1 l linked i.distinct (omega (arith, few)) in
    let (t, at, linked') =
      link_last-IsLinked s1 (record { addr = l.addr; ptr = l.ptr }) l.next new linked i.distinct
        outside (rw (==_refl e) refl) in
    let z1 : s1 null ≡ none =
      null_free-write s e (some (record { ptr = p; next = null })) ne i.null_free in
    rw (Linked.link_last, found, at)
      (returns e
        (record {
          head = refl;
          linked = linked';
          distinct = AreNodes-add_last (nodes l) new i.distinct outside ne;
          null_free =
              null_free-write s1 (last_addr l.addr l.next) (some (record t { next = e }))
                (λ x. some_ne_none (sym at ∙ ap s1 x ∙ z1)) z1;
        })
        (omega (arith, length-add_last l.next new)))

ne-==_false : (a b : ℕ) → (a == b) ≡ false → a ≢ b
ne-==_false a b h e = ground arith

pub add-SameCall :
    (n : ℕ) (s : Nodes) (l : PtrList) (p e : Ptr)
    → IsList s l.addr l
    → length l.next + 1 < n
    → s e ≡ none
    → SameCall l.addr l (on_nodes n l.addr (add_ptr p e) s) (on_list (add_ptr p e) l)
unfolding on_nodes on_list Linked.ptrlist_add PtrList.ptrlist_add
add-SameCall n s l p e i few fresh =
    let last_is = first_addr-no_nodes l.next (i.distinct.2) in
    elim (Bool-cases (is_empty l)) [
      | inl unused ↦
          rw (Linked.ptrlist_add, i.linked.0, last_is, unused)
            (returns l.addr
              (record {
                head = refl;
                linked = (
                  rw (==_refl l.addr) refl,
                  IsLinked-write s l.addr _ l.next (i.distinct.1) (i.linked.1),
                );
                distinct = i.distinct;
                null_free = null_free-write s l.addr _ (i.distinct.0) i.null_free;
              })
              (omega arith))
      | inr used ↦ elim (Bool-cases (e == null)) [
        | inl failed ↦ rw (Linked.ptrlist_add, i.linked.0, last_is, used, failed) fails
        | inr there ↦
            rw (Linked.ptrlist_add, i.linked.0, last_is, used, there)
              (link-SameCall n s l p e i few fresh (ne-==_false e null there))
      ]
    ]
