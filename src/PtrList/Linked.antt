-- ===== src/PtrList/Linked.antt =====
-- p2/rtos/kernel/others/PtrList.c again, on the nodes in memory: each function reads and writes the
-- fields of the nodes as the code does. `none` is an access through a pointer to no node, or a loop
-- with too little fuel, which is the first argument of the functions with loops.
pub mod Chain
pub mod Remove
pub mod Calls
pub mod Same
pub mod Runs
use mathlib.Core.Option
use ez_rtos.Base.{
  ℕ, zero, suc, ◌&&◌, Bool, true, false, Option, none, some, ◌==◌, if◌then◌else◌, Ptr, null,
}

pub record Entry : Type 0 where
  pub ptr : Ptr
  pub next : Ptr

abbrev pub Nodes : Type 0
Nodes = Ptr → Option Entry

abbrev pub write_entry : Nodes → Ptr → Option Entry → Nodes
write_entry s p c q = if p == q then c else s q

abbrev pub unused_entry : Entry
unused_entry = record { ptr = null; next = null }

unfoldable pub ptrlist_cnext : Nodes → Ptr → Ptr → Option Ptr
ptrlist_cnext s head current = Option.map (λ e. if e.next == null then head else e.next) (s current)

-- `for(;head->next; head = head->next);`
unfoldable pub findtail_loop : ℕ → Nodes → Ptr → Option Ptr
findtail_loop zero s head = none
findtail_loop (suc n) s head = elim (s head) [
  | none ↦ none
  | some e ↦ elim (e.next == null) [ true ↦ some head | false ↦ findtail_loop n s e.next ]
]

unfoldable pub ptrlist_findtail : ℕ → Nodes → Ptr → Option Ptr
unfolding findtail_loop
ptrlist_findtail n s head = if head == null then some null else findtail_loop n s head

-- The new node at `e`, which is what `malloc` returned, linked behind the tail.
unfoldable pub link_last : ℕ → Nodes → Ptr → Ptr → Ptr → Option (Ptr × Nodes)
link_last n s head ptr e =
    let s1 : Nodes = write_entry s e (some (record { ptr = ptr; next = null })) in
    elim (ptrlist_findtail n s1 head) [
      | none ↦ none
      | some tail ↦
          Option.map (λ t. (e, write_entry s1 tail (some (record t { next = e })))) (s1 tail)
    ]

-- The node that holds the pointer, and the memory after.
unfoldable pub ptrlist_add : ℕ → Nodes → Ptr → Ptr → Ptr → Option (Ptr × Nodes)
unfolding link_last
ptrlist_add n s head ptr e = elim (s head) [
  | none ↦ none
  | some h ↦
      if h.ptr == null && h.next == null
      then some (head, write_entry s head (some (record h { ptr = ptr })))
      else if e == null
      then none
      else link_last n s head ptr e
]

unfoldable pub ptrlist_find : ℕ → Nodes → Ptr → Ptr → Option Ptr
ptrlist_find zero s head ptr = none
ptrlist_find (suc n) s head ptr = elim (head == null) [
  | true ↦ some null
  | false ↦ elim (s head) [
    | none ↦ none
    | some e ↦ elim (e.ptr == ptr) [ true ↦ some head | false ↦ ptrlist_find n s e.next ptr ]
  ]
]

-- Removing the head copies the second node into it and frees that node.
unfoldable pub remove_head : Nodes → Ptr → Option (Bool × Nodes)
remove_head s head = elim (s head) [
  | none ↦ none
  | some h ↦
      if h.next == null
      then some (true, write_entry s head (some unused_entry))
      else Option.map (λ t. (true, write_entry (write_entry s head (some t)) h.next none))
          (s h.next)
]

-- `head->next = to_remove->next; free(to_remove);`
unfoldable pub unlink : Nodes → Ptr → Entry → Ptr → Option (Bool × Nodes)
unlink s head h to_remove =
    Option.map
      (λ t.
        (true, write_entry (write_entry s head (some (record h { next = t.next }))) to_remove none))
      (s to_remove)

unfoldable pub remove_loop : ℕ → Nodes → Ptr → Ptr → Option (Bool × Nodes)
unfolding unlink
remove_loop zero s head to_remove = none
remove_loop (suc n) s head to_remove = elim (head == null) [
  | true ↦ some (false, s)
  | false ↦ elim (s head) [
    | none ↦ none
    | some h ↦ elim (h.next == to_remove) [
      | true ↦ unlink s head h to_remove
      | false ↦ remove_loop n s h.next to_remove
    ]
  ]
]

unfoldable pub ptrlist_remove : ℕ → Nodes → Ptr → Ptr → Option (Bool × Nodes)
unfolding remove_head remove_loop
ptrlist_remove n s head to_remove =
    if head == to_remove then remove_head s head else remove_loop n s head to_remove

-- The loop runs while its node is NULL, and reads through it.
unfoldable pub ptrlist_destroy : Nodes → Ptr → Option Nodes
ptrlist_destroy s head = elim (s head) [
  | none ↦ none
  | some h ↦ if h.next == null then none else some (write_entry s head (some unused_entry))
]
