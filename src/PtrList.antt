-- ===== src/PtrList.antt =====
-- p2/rtos/kernel/others/PtrList.c: the singly linked lists of kernel objects. A list is its static
-- head node, at the fixed address `addr`, and the chain of allocated nodes behind it. `none` is an
-- access through NULL or through a pointer that is no node of the list.
pub mod Walk
pub mod Cycle
pub mod Change
pub mod Gone
pub mod Linked
use ez_rtos.Base.{
  Bool, true, false, ◌&&◌, ◌||◌, Option, none, some, List, [], ◌∷◌, ◌==◌, if◌then◌else◌, Ptr, null,
}

pub record Node : Type 0 where
  pub addr : Ptr
  pub ptr : Ptr

pub record PtrList : Type 0 where
  pub addr : Ptr
  pub ptr : Ptr
  pub next : List Node

-- All nodes, the static head first.
abbrev pub nodes : PtrList → List Node
nodes l = record { addr = l.addr; ptr = l.ptr } ∷ l.next

-- Some node of the list holds `p`.
abbrev pub holds : List Node → Ptr → Bool
holds [] p = false
holds (n ∷ ns) p = (n.ptr == p) || holds ns p

-- What a module's reset leaves: `List.ptr = NULL; List.next = NULL`.
abbrev pub empty : Ptr → PtrList
empty a = record { addr = a; ptr = null; next = [] }

abbrev pub first_addr : List Node → Ptr
first_addr [] = null
first_addr (n ∷ _) = n.addr

-- `current->next`: `none` if `current` is not a node of the list, `some null` at the end.
unfoldable pub successor : Ptr → List Node → Option Ptr
successor current [] = none
successor current (n ∷ ns) =
    let rest = successor current ns in if n.addr == current then some (first_addr ns) else rest

-- Circular next.
unfoldable pub ptrlist_cnext : PtrList → Ptr → Option Ptr
ptrlist_cnext l current = elim (successor current (nodes l)) [
  | none ↦ none
  | some next ↦ if next == null then some l.addr else some next
]

pub last_addr : Ptr → List Node → Ptr
last_addr a [] = a
last_addr a (n ∷ ns) = last_addr n.addr ns

unfoldable pub ptrlist_findtail : PtrList → Ptr
unfolding last_addr
ptrlist_findtail l = last_addr l.addr l.next

abbrev pub no_nodes : List Node → Bool
no_nodes [] = true
no_nodes (_ ∷ _) = false

-- Whether `ptrlist_add` needs no new node.
abbrev pub is_empty : PtrList → Bool
is_empty l = l.ptr == null && no_nodes l.next

pub add_last : List Node → Node → List Node
add_last [] e = e ∷ []
add_last (n ∷ ns) e = n ∷ add_last ns e

-- `e` is what `malloc` returned; it is written through with no check.
unfoldable pub ptrlist_add : PtrList → Ptr → Ptr → Option PtrList
unfolding add_last
ptrlist_add l ptr e =
    if is_empty l
    then some (record l { ptr = ptr })
    else if e == null
    then none
    else some (record l { next = add_last l.next (record { addr = e; ptr = ptr }) })

pub find_ptr : Ptr → List Node → Ptr
find_ptr ptr [] = null
find_ptr ptr (n ∷ ns) = let rest = find_ptr ptr ns in if n.ptr == ptr then n.addr else rest

-- The first node that holds `ptr`, or NULL.
unfoldable pub ptrlist_find : PtrList → Ptr → Ptr
unfolding find_ptr
ptrlist_find l ptr = find_ptr ptr (nodes l)

-- The search for the node before `to_remove`, and the unlinking. The chain given is what follows
-- `head`; the flag is the function's result. With `to_remove == NULL` the search stops at the tail,
-- and `to_remove->next` reads through NULL.
pub unlink : Ptr → List Node → Option (List Node × Bool)
unlink to_remove [] = if to_remove == null then none else some ([], false)
unlink to_remove (n ∷ ns) =
    let rest = unlink to_remove ns in
    if n.addr == to_remove
    then some (ns, true)
    else elim rest [ none ↦ none | some (ns', found) ↦ some (n ∷ ns', found) ]

-- Removing the head copies the second node into it and frees that node.
remove_head : PtrList → List Node → PtrList
remove_head l [] = record l { ptr = null; next = [] }
remove_head l (n ∷ ns) = record l { ptr = n.ptr; next = ns }

unfoldable pub ptrlist_remove : PtrList → Ptr → Option (PtrList × Bool)
unfolding unlink remove_head
ptrlist_remove l to_remove =
    if l.addr == to_remove
    then some (remove_head l l.next, true)
    else elim (unlink to_remove l.next) [
      | none ↦ none
      | some (ns, found) ↦ some (record l { next = ns }, found)
    ]

-- The loop runs while its node is NULL: nodes behind the head stay allocated, and without one it reads
-- through NULL.
unfoldable pub ptrlist_destroy : PtrList → Option PtrList
ptrlist_destroy l = elim l.next [ [] ↦ none | _ ∷ _ ↦ some (empty l.addr) ]
