-- ===== src/Scheduler/Dispatch.antt =====
-- `Kernel_Dispatch_Next_Task` of p2/rtos/kernel/kernel.c.
pub mod Lost
pub mod Runs
pub mod Wakes
use ez_rtos.Base.{
  ℕ, ◌*◌, ◌%◌, true, false, some, List, [], ◌∷◌, leb, ◌==◌, if◌then◌else◌, Ptr, null, add_word,
}
use ez_rtos.PtrList.{nodes, ptrlist_cnext}
use ez_rtos.Kernel.Types.{ProcessState, is_ready, is_running, ready, running}
use ez_rtos.Kernel.Run.{
  M, pure, ◌>>=◌, ◌>>◌, done, from_option, get, put, load_pd, store_pd, set_state, waiting,
}
use ez_rtos.Scheduler.Select.{ptr_at, kernel_select_next_task}
use ez_rtos.Scheduler.Tick.{kernel_tick_handler}

-- The first lines: preemption is off, and a running task may be chosen again.
pub begin_dispatch : M (Unit {0})
begin_dispatch = do
  k ← get
  put (record k { preemptive_cswitch_allowed = false })
  d ← load_pd k.current_process
  if is_running d.state then set_state k.current_process ProcessState.ready else done

select : M Ptr
select k = from_option (kernel_select_next_task k) k

-- The ticks are counted in every `Task_Count * 100` rounds of the idle loop.
count_round : ℕ → M ℕ
unfolding kernel_tick_handler
count_round j = do
  k ← get
  if leb ((k.tasks.count * 100) % 65536) (add_word j 1)
      then (kernel_tick_handler >> pure 0)
      else pure (add_word j 1)

-- The loop that waits for a ready task. Interrupts are enabled in it: the list gives the number of
-- timer ticks that come in during each round. Preemption is off, so a tick does no more than count.
pub idle : List ℕ → Ptr → ℕ → M (Unit {0})
unfolding count_round
idle [] i j = do
  k ← get
  p ← from_option (ptr_at i (nodes k.tasks.list))
  d ← load_pd p
  if is_ready d.state then done else waiting
idle (ticks ∷ later) i j = do
  k ← get
  p ← from_option (ptr_at i (nodes k.tasks.list))
  d ← load_pd p
  if is_ready d.state then done else (do
    put (record k { tick_count = add_word k.tick_count ticks })
    j ← count_round j
    i ← from_option (ptrlist_cnext k.tasks.list i)
    idle later i j)

-- The chosen task runs.
run_task : Ptr → M (Unit {0})
run_task next = do
  k ← get
  p ← from_option (ptr_at next (nodes k.tasks.list))
  put (record k { last_dispatched = next; current_process = p })
  d ← load_pd p
  store_pd p (some (record d { state = ProcessState.running; starvation_ticks = 0 }))
  k ← get
  put (record k {
    current_sp = d.sp;
    ticks_since_last_cswitch = 0;
    preemptive_cswitch_allowed = true;
  })

-- The second search, after the idle loop. `next_dispatch->ptr` is read with no check.
dispatch_idle : List ℕ → M (Unit {0})
unfolding idle select run_task
dispatch_idle arriving = do k ← get; idle arriving k.last_dispatched 0; next ← select; run_task next

unfoldable pub kernel_dispatch_next_task : List ℕ → M (Unit {0})
unfolding begin_dispatch kernel_tick_handler select run_task dispatch_idle
kernel_dispatch_next_task arriving = do
  begin_dispatch
  kernel_tick_handler
  next ← select
  if next == null then dispatch_idle arriving else run_task next
