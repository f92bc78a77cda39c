-- ===== src/Scheduler/Dispatch/Runs.antt =====
-- What a dispatch leaves when a task can run.
use ez_rtos.Scheduler.Select.Found.{HasTask}
use ez_rtos.Kernel.ForEach.{AreTasks, mapped}
use ez_rtos.Scheduler.Select.Rounds.{ptr_at-append, round}
use ez_rtos.Scheduler.Select.Best.{
  Selects, kernel_select_next_task-Selects, nobody, highest, fewest_missed,
}
use ez_rtos.Scheduler.Tick.Timeout.{kernel_tick_handler-mapped, counted}
use ez_rtos.PtrList.Cycle.{AreNodes}
use mathlib.Core.List.{append_assoc}
use ez_rtos.PtrList.{Node, nodes, holds}
use ez_rtos.Kernel.Types.{ProcessState, Pd, is_ready, is_running}
use ez_rtos.Kernel.State.{Kernel}
use ez_rtos.Kernel.Run.{update, set_cell, ok}
use ez_rtos.Base.{
  ℕ, ◌+◌, ◌≡◌, sym, subst, ◌≢◌, ◌⊎◌, inl, inr, true, false, Option, some, List, [], ◌∷◌, ◌++◌,
  arith, ◌==◌, if◌then◌else◌, Bool-cases, length, All, All-append, All-left, All-right, Ptr, null,
}
use ez_rtos.Scheduler.Select.Passed.{IsStarving, passed_over-All, passed_over-IsStarving}
use ez_rtos.Scheduler.Select.{ptr_at, kernel_select_next_task}
use ez_rtos.Scheduler.Tick.{tick_pd, kernel_tick_handler}
use ez_rtos.Scheduler.Dispatch.{begin_dispatch, select, run_task, kernel_dispatch_next_task}

-- Preemption is off and the task that ran, `me`, may be chosen again.
abbrev pub offering : Kernel → Pd → Kernel
offering k me = record k {
  preemptive_cswitch_allowed = false;
  tasks = record (k.tasks) {
    cell =
        if is_running me.state
        then update k.tasks.cell k.current_process (some (record me { state = ProcessState.ready }))
        else k.tasks.cell;
  };
}

-- The task `d` at `p`, of the node `next`, runs.
abbrev pub running_task : Kernel → Ptr → Ptr → Pd → Kernel
running_task k next p d = record k {
  last_dispatched = next;
  current_process = p;
  current_sp = d.sp;
  ticks_since_last_cswitch = 0;
  preemptive_cswitch_allowed = true;
  tasks =
      set_cell k.tasks p (some (record d { state = ProcessState.running; starvation_ticks = 0 }));
}

pub begin_dispatch-offering :
    (k : Kernel) (me : Pd)
    → k.tasks.cell k.current_process ≡ some me
    → begin_dispatch k ≡ ok tt (offering k me)
unfolding begin_dispatch
begin_dispatch-offering k me caller = elim (Bool-cases (is_running me.state)) [
  | inl runs ↦ rw runs (ground arith)
  | inr rests ↦ rw rests (ground arith)
]

run_task-running_task :
    (k : Kernel) (next p : Ptr) (d : Pd)
    → ptr_at next (nodes k.tasks.list) ≡ some p
    → k.tasks.cell p ≡ some d
    → run_task next k ≡ ok tt (running_task k next p d)
unfolding run_task
run_task-running_task k next p d at holds = ground arith

dispatch_runs :
    (arriving : List ℕ) (k k' : Kernel) (me d : Pd) (next p : Ptr)
    → k.tasks.cell k.current_process ≡ some me
    → kernel_tick_handler (offering k me) ≡ ok tt k'
    → kernel_select_next_task k' ≡ some next
    → next ≢ null
    → ptr_at next (nodes k'.tasks.list) ≡ some p
    → k'.tasks.cell p ≡ some d
    → kernel_dispatch_next_task arriving k ≡ ok tt (running_task k' next p d)
unfolding kernel_dispatch_next_task select
dispatch_runs arriving k k' me d next p caller tick sel n at holds =
    rw (begin_dispatch-offering k me caller, tick)
      (ground (arith, sel, run_task-running_task k' next p d at holds))

-- The node can be found by its address.
abbrev IsAt : List Node → Node → Type 0
IsAt ns x = ptr_at x.addr ns ≡ some x.ptr

nodes-IsAt : (pre ns : List Node) → AreNodes (pre ++ ns) → All (IsAt (pre ++ ns)) ns
nodes-IsAt pre [] a = tt
nodes-IsAt pre (x ∷ ns) a = (
  ptr_at-append pre x ns a,
  subst (λ zs. All (IsAt zs) ns) (append_assoc pre (x ∷ []) ns)
      (nodes-IsAt (pre ++ (x ∷ [])) ns (subst AreNodes (sym (append_assoc pre (x ∷ []) ns)) a)),
)

round-All :
    (P : Node → Type 0) (pre : List Node) (n : Node) (post : List Node)
    → All P (pre ++ (n ∷ post))
    → All P (round pre n post)
round-All P pre n post h =
    let later = All-right P pre (n ∷ post) h in
    All-append P post (pre ++ (n ∷ [])) later.1
      (All-append P pre (n ∷ []) (All-left P pre (n ∷ post) h) (later.0, tt))

-- A chosen node holds a task that is ready.
chosen_task :
    (P : Node → Type 0) (cell : Ptr → Option Pd) (ns : List Node) (next : Ptr)
    → Selects cell ns next
    → next ≢ null
    → All P ns
    → (x : Node) × (x.addr ≡ next)
      × P x
      × ((d : Pd) × (cell x.ptr ≡ some d) × (is_ready d.state ≡ true))
chosen_task P cell ns next (nobody z a) n h = absurd (n z)
chosen_task P cell ns next (highest before x after d e at holds up below above fed) n h =
    (x, at, (All-right P before (x ∷ after) (subst (All P) e h)).0, (d, holds, up))
chosen_task P cell ns next (fewest_missed before x after d e at holds b l) n h =
    let found = All-right P before (x ∷ after) (subst (All P) e (passed_over-All cell P 11 ns h)) in
    let starves = subst (All (IsStarving cell)) e (passed_over-IsStarving cell 11 ns) in
    let (d', holds', up, long) = (All-right (IsStarving cell) before (x ∷ after) starves).0 in
    (x, at, found.0, (d', holds', up))

-- The memory of the tasks once the ticks are handled.
abbrev pub ticked : Kernel → Pd → Kernel
ticked k me = record (offering k me) {
  tick_count = 0;
  tasks = record (k.tasks) {
    cell = mapped (tick_pd k.tick_count) (nodes k.tasks.list) (offering k me).tasks.cell;
  };
}

-- A node of the choice, and the dispatch that runs its task.
abbrev pub Dispatches : List ℕ → Kernel → Pd → Ptr → Type 0
Dispatches arriving k me next =
    (p : Ptr) × (d : Pd) × ((ticked k me).tasks.cell p ≡ some d)
    × (is_ready d.state ≡ true)
    × (ptr_at next (nodes k.tasks.list) ≡ some p)
    × (kernel_dispatch_next_task arriving k ≡ ok tt (running_task (ticked k me) next p d))

-- Kernel_Dispatch_Next_Task, when ticks have been counted, first handles them, with the task that
-- was running taking part as a ready one. If the search that follows finds a task, that one is made
-- to run, with no missed ticks and with preemption on and all its ticks to come: of the ready tasks
-- that have missed 160 ticks or more and that come, in the order round the process list from the
-- one dispatched last, behind a ready task of the same or a higher priority, the first of those
-- that have missed the fewest; if there are none, the first of the ready tasks of the highest
-- priority. The process list is in order, with a descriptor in memory and a priority in range for
-- each node, the task count is its length, and the task dispatched last is in it. What happens when
-- no task is ready is not stated.
pub kernel_dispatch_next_task-Selects :
    (arriving : List ℕ) (k : Kernel) (me : Pd) (pre : List Node) (n : Node) (post : List Node)
    → k.tasks.cell k.current_process ≡ some me
    → k.tick_count ≢ 0
    → AreTasks (offering k me).tasks.cell (nodes k.tasks.list)
    → nodes k.tasks.list ≡ pre ++ (n ∷ post)
    → AreNodes (nodes k.tasks.list)
    → k.last_dispatched ≡ n.addr
    → k.tasks.count ≡ length pre + 1 + length post
    → All (HasTask (ticked k me).tasks.cell) (round pre n post)
    → (next : Ptr) × Selects (ticked k me).tasks.cell (round pre n post) next
      × ((next ≡ null) ⊎ Dispatches arriving k me next)
kernel_dispatch_next_task-Selects arriving k me pre n post caller t tasks e a last counted has =
    let (next, sel, choice) =
      kernel_select_next_task-Selects (ticked k me) pre n post e a last counted has in
    (
      next,
      choice,
      elim (Bool-cases (next == null)) [
        | inl nobody_ready ↦ inl (ground arith)
        | inr found ↦ inr (dispatches next sel choice (ground arith))
      ],
    )
  where
    at_nodes : All (IsAt (nodes k.tasks.list)) (pre ++ (n ∷ post))
    at_nodes =
        subst (λ ns. All (IsAt ns) (pre ++ (n ∷ post))) (sym e)
          (nodes-IsAt [] (pre ++ (n ∷ post)) (subst AreNodes e a))

    dispatches :
        (next : Ptr)
        → kernel_select_next_task (ticked k me) ≡ some next
        → Selects (ticked k me).tasks.cell (round pre n post) next
        → next ≢ null
        → Dispatches arriving k me next
    dispatches next sel choice ne =
        let (x, at, found, (d, holds, up)) =
          chosen_task (IsAt (nodes k.tasks.list)) (ticked k me).tasks.cell (round pre n post) next
            choice ne (round-All (IsAt (nodes k.tasks.list)) pre n post at_nodes) in
        let found_at = subst (λ y. ptr_at y (nodes k.tasks.list) ≡ some x.ptr) at found in
        (
          x.ptr,
          d,
          holds,
          up,
          found_at,
          dispatch_runs arriving k (ticked k me) me d next x.ptr caller
              (kernel_tick_handler-mapped (offering k me) t tasks) sel ne found_at holds,
        )
