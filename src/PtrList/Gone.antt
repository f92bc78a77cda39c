-- ===== src/PtrList/Gone.antt =====
-- The node that a removal frees is no longer in the list.
use ez_rtos.Base.{
  ◌≡◌, refl, inl, inr, true, false, none, some, List, [], ◌∷◌, arith, ◌==◌, ==_refl, Bool-cases,
  Ptr,
}
use ez_rtos.PtrList.{
  Node, PtrList, nodes, holds, successor, find_ptr, ptrlist_find, unlink, ptrlist_remove,
  ptrlist_cnext,
}
use ez_rtos.PtrList.Cycle.{has_addr, AreNodes}
use ez_rtos.PtrList.Change.{find_ptr-ne}

successor-none : (c : Ptr) (ns : List Node) → has_addr ns c ≡ false → successor c ns ≡ none
unfolding successor
successor-none c [] h = refl
successor-none c (n ∷ ns) h =
    let apart : (n.addr == c) ≡ false = ground arith in
    rw apart (successor-none c ns (ground arith))

unlink-gone :
    (ns : List Node) (p : Ptr)
    → AreNodes ns
    → holds ns p ≡ true
    → (ns' : List Node) × (unlink (find_ptr p ns) ns ≡ some (ns', true))
      × (has_addr ns' (find_ptr p ns) ≡ false)
unfolding unlink find_ptr
unlink-gone [] p a h = cc
unlink-gone (n ∷ ns) p a h = elim (Bool-cases (n.ptr == p)) [
  | inl hit ↦ (ns, ground (arith, ==_refl n.addr), rw hit (a.1))
  | inr miss ↦
      let (ns', e, q) = unlink-gone ns p a.2 (ground arith) in
      let ne = find_ptr-ne ns p n.addr a.1 a.0 in
      (n ∷ ns', ground (arith, e, ne), ground (arith, q, ne))
]

ptrlist_cnext-absent :
    (l : PtrList) (c : Ptr) → has_addr (nodes l) c ≡ false → ptrlist_cnext l c ≡ none
unfolding ptrlist_cnext
ptrlist_cnext-absent l c h = rw (ptrlist_cnext, successor-none c (nodes l) h) refl

-- Going on from the node that held a pointer, once it is removed, reads a node that is freed.
pub ptrlist_cnext-ptrlist_remove :
    (l : PtrList) (p : Ptr)
    → AreNodes (nodes l)
    → (l.ptr == p) ≡ false
    → holds l.next p ≡ true
    → (l' : PtrList) × (ptrlist_remove l (ptrlist_find l p) ≡ some (l', true))
      × (ptrlist_cnext l' (ptrlist_find l p) ≡ none)
unfolding ptrlist_remove ptrlist_find find_ptr
ptrlist_cnext-ptrlist_remove l p a miss h =
    let (ns', e, q) = unlink-gone l.next p a.2 h in
    let ne = find_ptr-ne l.next p l.addr a.1 a.0 in
    let l' : PtrList = record l { next = ns' } in
    let gone : has_addr (nodes l') (find_ptr p l.next) ≡ false = ground (arith, ne, q) in
    (l', ground (arith, e, ne), rw miss (ptrlist_cnext-absent l' (find_ptr p l.next) gone))
