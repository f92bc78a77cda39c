-- ===== src/Scheduler/Select.antt =====
-- `Kernel_Select_Next_Task` of p2/rtos/kernel/kernel.c. It reads only: `cell` is the memory of the
-- process descriptors, and `none` an access through a bad pointer.
pub mod Rounds
pub mod Found
pub mod Passed
pub mod Best
use ez_rtos.Base.{
  ℕ, zero, suc, Option, none, some, List, [], ◌∷◌, ltb, leb, ◌==◌, if◌then◌else◌, Ptr, null,
}
use ez_rtos.PtrList.{Node, PtrList, nodes, ptrlist_cnext}
use ez_rtos.Kernel.Types.{Pd, is_ready}
use ez_rtos.Kernel.State.{Kernel}

abbrev pub starvation_max : ℕ
starvation_max = 160

-- The local variables of the search. `process_ms` is the descriptor of `most_starved`.
pub record Search : Type 0 where
  pub next_dispatch : Ptr
  pub highest_priority : ℕ
  pub most_starved : Ptr
  pub process_ms : Ptr

abbrev pub no_search : Search
no_search = record {
  next_dispatch = null;
  highest_priority = 11;
  most_starved = null;
  process_ms = null;
}

-- `i->ptr`.
unfoldable pub ptr_at : Ptr → List Node → Option Ptr
ptr_at i [] = none
ptr_at i (n ∷ ns) = let rest = ptr_at i ns in if n.addr == i then some n.ptr else rest

module _ (cell : Ptr → Option Pd) where
  -- A starving task, `d` at node `i`: kept unless one is kept that starves no more than it.
  unfoldable pub note_starving : Ptr → Ptr → Pd → Search → Option Search
  note_starving i p d s =
      if s.most_starved == null
      then some (record s { most_starved = i; process_ms = p })
      else elim (cell s.process_ms) [
        | none ↦ none
        | some ms ↦
            if leb ms.starvation_ticks d.starvation_ticks
            then some s
            else some (record s { most_starved = i; process_ms = p })
      ]

  -- The body of the loop, for the descriptor `d` at `p`, held by the node `i`.
  unfoldable pub consider : Ptr → Ptr → Pd → Search → Option Search
  consider i p d s =
      if is_ready d.state
      then (if ltb d.pri s.highest_priority
          then some (record s { next_dispatch = i; highest_priority = d.pri })
          else if leb starvation_max d.starvation_ticks
          then note_starving i p d s
          else some s)
      else some s

  unfoldable pub visit : PtrList → Ptr → Search → Option Search
  visit l i s = elim (ptr_at i (nodes l)) [
    | none ↦ none
    | some p ↦ elim (cell p) [ none ↦ none | some d ↦ consider i p d s ]
  ]

  -- `j` rounds are left, and `i` is the next node.
  unfoldable pub search_loop : PtrList → ℕ → Ptr → Search → Option Search
  search_loop l zero i s = some s
  search_loop l (suc j) i s = elim (visit l i s) [
    | none ↦ none
    | some s' ↦ elim (ptrlist_cnext l i) [ none ↦ none | some i' ↦ search_loop l j i' s' ]
  ]

abbrev pub chosen : Search → Ptr
chosen s = if s.most_starved == null then s.next_dispatch else s.most_starved

unfoldable pub kernel_select_next_task : Kernel → Option Ptr
kernel_select_next_task k = elim (ptrlist_cnext k.tasks.list k.last_dispatched) [
  | none ↦ none
  | some i ↦ elim (search_loop k.tasks.cell k.tasks.list k.tasks.count i no_search) [
    | none ↦ none
    | some s ↦ some (chosen s)
  ]
]
