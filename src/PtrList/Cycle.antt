-- ===== src/PtrList/Cycle.antt =====
-- Going round a list with `ptrlist_cnext`.
use ez_rtos.Base.{
  ◌≡◌, refl, sym, subst, ◌≢◌, Bool, false, ◌||◌, some, List, [], ◌∷◌, ◌++◌, arith, ◌==◌, ==_refl,
  ==_ne, Ptr, null,
}
use ez_rtos.PtrList.{Node, PtrList, nodes, first_addr, successor, ptrlist_cnext}

abbrev pub has_addr : List Node → Ptr → Bool
has_addr [] a = false
has_addr (n ∷ ns) a = (n.addr == a) || has_addr ns a

-- The addresses of the nodes are different, and none is NULL.
abbrev pub AreNodes : List Node → Type 0
AreNodes [] = Unit
AreNodes (n ∷ ns) = (n.addr ≢ null) × (has_addr ns n.addr ≡ false) × AreNodes ns

has_addr-append :
    (xs ys : List Node) (a : Ptr) → has_addr (xs ++ ys) a ≡ (has_addr xs a || has_addr ys a)
has_addr-append [] ys a = refl
has_addr-append (x ∷ xs) ys a = ground (arith, has_addr-append xs ys a)

-- The head of a list that starts a suffix is not among the nodes before it.
pub before_ne :
    (pre : List Node) (n : Node) (post : List Node) (a : Ptr)
    → has_addr (pre ++ (n ∷ post)) a ≡ false
    → (a == n.addr) ≡ false
before_ne pre n post a h = ground (arith, has_addr-append pre (n ∷ post) a)

pub successor-append :
    (pre : List Node) (n : Node) (post : List Node)
    → AreNodes (pre ++ (n ∷ post))
    → successor n.addr (pre ++ (n ∷ post)) ≡ some (first_addr post)
unfolding successor
successor-append [] n post a = rw (==_refl n.addr)
successor-append (m ∷ pre) n post a =
    rw (before_ne pre n post m.addr a.1) (successor-append pre n post a.2)

pub AreNodes-append : (pre post : List Node) → AreNodes (pre ++ post) → AreNodes post
AreNodes-append [] post a = a
AreNodes-append (m ∷ pre) post a = AreNodes-append pre post a.2

-- Where the walk goes from the last node before `post`.
abbrev pub next_addr : PtrList → List Node → Ptr
next_addr l [] = l.addr
next_addr l (n ∷ _) = n.addr

module _ (l : PtrList) (pre : List Node) (n : Node) (post : List Node)
    (e : nodes l ≡ pre ++ (n ∷ post)) (a : AreNodes (nodes l)) where
  split : AreNodes (pre ++ (n ∷ post))
  split = subst AreNodes e a

  successor-nodes : successor n.addr (nodes l) ≡ some (first_addr post)
  successor-nodes =
      subst (λ ns. successor n.addr ns ≡ some (first_addr post)) (sym e)
        (successor-append pre n post split)

pub cnext-append :
    (l : PtrList) (pre : List Node) (n : Node) (post : List Node)
    → nodes l ≡ pre ++ (n ∷ post)
    → AreNodes (nodes l)
    → ptrlist_cnext l n.addr ≡ some (next_addr l post)
unfolding ptrlist_cnext
cnext-append l pre n [] e a = ground (arith, successor-nodes l pre n [] e a)
cnext-append l pre n (m ∷ post) e a =
    let later = AreNodes-append pre (n ∷ m ∷ post) (split l pre n (m ∷ post) e a) in
    ground (arith, successor-nodes l pre n (m ∷ post) e a, ==_ne m.addr null later.2.0)
