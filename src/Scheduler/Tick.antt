-- ===== src/Scheduler/Tick.antt =====
-- The tick interrupt and the tick handler of p2/rtos/kernel/kernel.c.
pub mod Timeout
use ez_rtos.Base.{
  ℕ, Bool, true, false, ◌||◌, some, leb, ◌==◌, if◌then◌else◌, add_word, sub_word, is_negative,
}
use ez_rtos.PtrList.{nodes}
use ez_rtos.Kernel.Types.{ProcessState, KernelRequest, Pd, is_ready, is_suspended}
use ez_rtos.Kernel.ForEach.{for_each}
use ez_rtos.Kernel.Run.{M, pure, ◌>>=◌, ◌>>◌, done, get, put, load_pd, store_pd}

abbrev pub preemptive_cswitch_freq : ℕ
preemptive_cswitch_freq = 25

-- `Kernel_Tick_ISR`; true when it enters the kernel, with the request of the running task made.
unfoldable pub kernel_tick_isr : M Bool
kernel_tick_isr = do
  k ← get
  put (record k { tick_count = add_word k.tick_count 1 })
  if k.preemptive_cswitch_allowed
      then (do
        k ← get
        put (record k { ticks_since_last_cswitch = add_word k.ticks_since_last_cswitch 1 })
        if leb preemptive_cswitch_freq (add_word k.ticks_since_last_cswitch 1)
            then (do
              d ← load_pd k.current_process
              store_pd k.current_process (some (record d { request = KernelRequest.task_yield }))
              pure true)
            else pure false)
      else pure false

-- `if(state == READY) starvation_ticks += Tick_Count;`
abbrev pub starve : ℕ → Pd → Pd
starve ticks d =
    if is_ready d.state
    then record d { starvation_ticks = add_word d.starvation_ticks ticks }
    else d

-- The request of a task has timed out.
abbrev pub time_out : Pd → Pd
time_out d =
    if is_suspended d.state
    then record d { request_timeout = 0; last_state = ProcessState.ready }
    else record d { request_timeout = 0; state = ProcessState.ready; request_retval = 0 }

-- `remaining_ticks` is an `int`.
abbrev pub count_down : ℕ → Pd → Pd
count_down ticks d =
    let remaining = sub_word d.request_timeout ticks in
    if d.request_timeout == 0
    then d
    else if is_negative remaining || remaining == 0
    then time_out d
    else record d { request_timeout = remaining }

-- One round of the loop of `Kernel_Tick_Handler`.
unfoldable pub tick_pd : ℕ → Pd → Pd
tick_pd ticks d = count_down ticks (starve ticks d)

unfoldable pub kernel_tick_handler : M (Unit {0})
unfolding for_each tick_pd
kernel_tick_handler k =
    (if k.tick_count == 0 then done else (do
      for_each (tick_pd k.tick_count) (nodes k.tasks.list)
      k ← get
      put (record k { tick_count = 0 })))
      k
