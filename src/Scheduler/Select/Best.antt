-- ===== src/Scheduler/Select/Best.antt =====
-- The outcome of the search of `Kernel_Select_Next_Task`.
use ez_rtos.Kernel.State.{Kernel}
use ez_rtos.Base.{
  ◌+◌, ◌≡◌, refl, subst, inl, inr, true, Option, some, List, [], ◌∷◌, ◌++◌, arith, All-right,
  length, All, Ptr, null,
}
use ez_rtos.PtrList.{Node, nodes}
use ez_rtos.Kernel.Types.{Pd, is_ready}
use ez_rtos.Scheduler.Select.Rounds.{round, kernel_select_next_task-round}
use ez_rtos.Scheduler.Select.{Search, no_search, chosen, kernel_select_next_task}
use ez_rtos.PtrList.Cycle.{AreNodes}
use ez_rtos.Scheduler.Select.Passed.{
  passed_over, passed_over-All, HasMissed, HasMissedMore, keeps, notes,
}
use ez_rtos.Scheduler.Select.Found.{HasTask, NotAbove, IsBelow, Found, consider_all-Found}

-- The outcome of the search of `Kernel_Select_Next_Task` over the tasks `ns`, in that order.
pub data Selects (cell : Ptr → Option Pd) (ns : List Node) (next : Ptr) : Type 0 where
  nobody : next ≡ null → All (NotAbove cell 11) ns → Selects cell ns next
  highest :
      (before : List Node) (n : Node) (after : List Node) (d : Pd)
      → ns ≡ before ++ (n ∷ after)
      → n.addr ≡ next
      → cell n.ptr ≡ some d
      → is_ready d.state ≡ true
      → All (IsBelow cell d.pri) before
      → All (NotAbove cell d.pri) ns
      → passed_over cell 11 ns ≡ []
      → Selects cell ns next
  fewest_missed :
      (before : List Node) (n : Node) (after : List Node) (d : Pd)
      → passed_over cell 11 ns ≡ before ++ (n ∷ after)
      → n.addr ≡ next
      → cell n.ptr ≡ some d
      → All (HasMissedMore cell d.starvation_ticks) before
      → All (HasMissed cell d.starvation_ticks) after
      → Selects cell ns next

module _ (cell : Ptr → Option Pd) (ns : List Node) where
  Found-Selects :
      (s : Search) → All (HasTask cell) ns → Found cell ns no_search s → Selects cell ns (chosen s)
  Found-Selects s a f = elim f.starved [
    | notes before n after d q at h b l u ↦
        let there =
          All-right (HasTask cell) before (n ∷ after)
            (subst (All (HasTask cell)) q (passed_over-All cell (HasTask cell) 11 ns a)) in
        let ne = there.0.0 in fewest_missed before n after d q (ground arith) h b l
    | keeps q z l ↦ elim f.origin [
      | inl o ↦ nobody (ground arith) (rw (o.1) at f.none_above)
      | inr first ↦
          highest first.before first.node first.after first.task first.splits
            (ground (arith, first.at)) first.holds first.is_up (rw (first.pri) first.before_below)
            (rw (first.pri) f.none_above) (z refl)
    ]
  ]

-- With the process list in order, a descriptor in memory and a priority in range for each of its
-- nodes, the task count equal to its length, and the task dispatched last in it,
-- Kernel_Select_Next_Task does not fault. In the order of the tasks from the one behind the task
-- dispatched last round to that task itself, it returns NULL if no task is ready. If ready tasks
-- that have missed 160 ticks or more are passed over, because a ready task of the same or a higher
-- priority comes before each of them, it returns the first of those that have missed the fewest
-- ticks. Else it returns the first of the ready tasks of the highest priority.
pub kernel_select_next_task-Selects :
    (k : Kernel) (pre : List Node) (n : Node) (post : List Node)
    → nodes k.tasks.list ≡ pre ++ (n ∷ post)
    → AreNodes (nodes k.tasks.list)
    → k.last_dispatched ≡ n.addr
    → k.tasks.count ≡ length pre + 1 + length post
    → All (HasTask k.tasks.cell) (round pre n post)
    → (next : Ptr) × (kernel_select_next_task k ≡ some next)
      × Selects k.tasks.cell (round pre n post) next
kernel_select_next_task-Selects k pre n post e a last counted tasks =
    let (s, q, f) = consider_all-Found k.tasks.cell (round pre n post) no_search tasks (inl refl) in
    (
      chosen s,
      ground (arith, kernel_select_next_task-round k pre n post e a last counted, q),
      Found-Selects k.tasks.cell (round pre n post) s tasks f,
    )
