-- ===== src/PtrList/Change.antt =====
-- What adding and removing do to the pointers that a list holds.
use ez_rtos.Base.{
  ◌≡◌, refl, ap, subst, ◌≢◌, inl, inr, true, false, none, some, List, [], ◌∷◌, ◌++◌, arith, ◌==◌,
  if◌then◌else◌, ==_refl, ==_ne, Bool-cases, Ptr, null,
}
use ez_rtos.PtrList.{
  Node, PtrList, nodes, holds, no_nodes, is_empty, add_last, ptrlist_add, find_ptr, ptrlist_find,
  unlink, remove_head, ptrlist_remove,
}
use ez_rtos.PtrList.Cycle.{has_addr, AreNodes}

abbrev pub ptrs : List Node → List Ptr
ptrs [] = []
ptrs (n ∷ ns) = n.ptr ∷ ptrs ns

-- The pointers in the list: none while the static head is unused.
abbrev pub contents : PtrList → List Ptr
contents l = if is_empty l then [] else ptrs (nodes l)

-- The first occurrence is dropped.
abbrev pub erase : Ptr → List Ptr → List Ptr
erase p [] = []
erase p (q ∷ qs) = if q == p then qs else q ∷ erase p qs

abbrev pub AreHeld : List Node → Type 0
AreHeld [] = Unit
AreHeld (n ∷ ns) = (n.ptr ≢ null) × AreHeld ns

ptrs-add_last : (ns : List Node) (e : Node) → ptrs (add_last ns e) ≡ ptrs ns ++ (e.ptr ∷ [])
unfolding add_last
ptrs-add_last [] e = refl
ptrs-add_last (n ∷ ns) e = ap (◌∷◌ n.ptr) (ptrs-add_last ns e)

no_nodes-add_last : (ns : List Node) (e : Node) → no_nodes (add_last ns e) ≡ false
unfolding add_last
no_nodes-add_last [] e = refl
no_nodes-add_last (n ∷ ns) e = refl

nil_of_no_nodes : (ns : List Node) → no_nodes ns ≡ true → ns ≡ []
nil_of_no_nodes [] h = refl
nil_of_no_nodes (n ∷ ns) h = cc

unused_add :
    (l : PtrList) (ptr : Ptr)
    → ptr ≢ null
    → l.ptr ≡ null
    → l.next ≡ []
    → contents (record l { ptr = ptr }) ≡ contents l ++ (ptr ∷ [])
unused_add l ptr n z e = rw (z, e) (ground (arith, ==_ne ptr null n))

-- ptrlist_add puts a pointer, not NULL, at the end of what the list holds, whether the head is
-- unused or a new node, whose allocation succeeds, is linked.
pub contents-ptrlist_add :
    (l : PtrList) (ptr e : Ptr)
    → ptr ≢ null
    → e ≢ null
    → (l' : PtrList) × (ptrlist_add l ptr e ≡ some l') × (contents l' ≡ contents l ++ (ptr ∷ []))
unfolding ptrlist_add
contents-ptrlist_add l ptr e np ne = elim (Bool-cases (is_empty l)) [
  | inl unused ↦ (
    record l { ptr = ptr },
    rw unused,
    unused_add l ptr np (ground arith) (nil_of_no_nodes l.next (ground arith)),
  )
  | inr used ↦ (
    record l { next = add_last l.next (record { addr = e; ptr = ptr }) },
    ground arith,
    ground (
      arith,
      ptrs-add_last l.next (record { addr = e; ptr = ptr }),
      no_nodes-add_last l.next (record { addr = e; ptr = ptr }),
    ),
  )
]

unlink-null : (ns : List Node) → AreNodes ns → unlink null ns ≡ none
unfolding unlink
unlink-null [] a = refl
unlink-null (n ∷ ns) a = ground (arith, unlink-null ns a.2)

-- Removing the node NULL, as for an object that the search did not find, reads through NULL.
pub ptrlist_remove-null : (l : PtrList) → AreNodes (nodes l) → ptrlist_remove l null ≡ none
unfolding ptrlist_remove
ptrlist_remove-null l a = ground (arith, a.0, unlink-null l.next a.2)

pub find_ptr-ne :
    (ns : List Node) (p a : Ptr) → has_addr ns a ≡ false → a ≢ null → (a == find_ptr p ns) ≡ false
unfolding find_ptr
find_ptr-ne [] p a h n = ground arith
find_ptr-ne (m ∷ ns) p a h n = ground (arith, find_ptr-ne ns p a)

unlink-find :
    (ns : List Node) (p : Ptr)
    → AreNodes ns
    → holds ns p ≡ true
    → (ns' : List Node) × (unlink (find_ptr p ns) ns ≡ some (ns', true))
      × (ptrs ns' ≡ erase p (ptrs ns))
unfolding unlink find_ptr
unlink-find [] p a h = cc
unlink-find (n ∷ ns) p a h = elim (Bool-cases (n.ptr == p)) [
  | inl hit ↦ (ns, ground (arith, ==_refl n.addr), rw hit)
  | inr miss ↦
      let (ns', e, q) = unlink-find ns p a.2 (ground arith) in
      (n ∷ ns', ground (arith, e, find_ptr-ne ns p n.addr a.1 a.0), ground (arith, q))
]

contents-remove_head :
    (l : PtrList) (ns : List Node) (p : Ptr)
    → l.next ≡ ns
    → (l.ptr == p) ≡ true
    → AreHeld (nodes l)
    → contents (remove_head l ns) ≡ erase p (contents l)
unfolding remove_head
contents-remove_head l [] p e h u = ground (arith, ==_ne l.ptr null u.0)
contents-remove_head l (n ∷ ns) p e h u =
    ground (arith, ==_ne l.ptr null u.0, ==_ne n.ptr null (subst AreHeld e u.1).0)

-- Removing the node that ptrlist_find finds for a pointer in the list drops the first occurrence of
-- that pointer from what the list holds, and keeps the rest in order. The addresses of the nodes
-- are different and not NULL, and no node holds NULL.
pub contents-ptrlist_remove :
    (l : PtrList) (p : Ptr)
    → AreNodes (nodes l)
    → AreHeld (nodes l)
    → holds (nodes l) p ≡ true
    → (l' : PtrList) × (ptrlist_remove l (ptrlist_find l p) ≡ some (l', true))
      × (contents l' ≡ erase p (contents l))
unfolding ptrlist_remove ptrlist_find find_ptr
contents-ptrlist_remove l p a u h = elim (Bool-cases (l.ptr == p)) [
  | inl hit ↦ (
    remove_head l l.next,
    ground (arith, ==_refl l.addr),
    contents-remove_head l l.next p refl hit u,
  )
  | inr miss ↦
      let (ns', e, q) = unlink-find l.next p a.2 (ground arith) in
      (
        record l { next = ns' },
        ground (arith, e, find_ptr-ne l.next p l.addr a.1 a.0),
        ground (arith, ==_ne l.ptr null u.0, q),
      )
]
