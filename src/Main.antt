-- ===== src/Main.antt =====
-- The main loop and the boot of p2/rtos/kernel/kernel.c.
pub mod Pass
pub mod Print
pub mod Terminate
pub mod Unknown
use ez_rtos.Base.{ℕ, true, false, not, ◌&&◌, some, List, [], ◌∷◌, ltb, if◌then◌else◌, Ptr, null}
use ez_rtos.PtrList.{ptrlist_findtail}
use ez_rtos.Kernel.Types.{
  ErrorCode, KernelRequest, Pd, no_err, invalid_request_err, none_request, task_create, task_yield,
  task_terminate, task_suspend, task_resume, task_sleep, e_create, e_wait, e_signal, eg_create,
  eg_destroy, eg_setbits, eg_clearbits, eg_waitbits, eg_getbits, mut_create, mut_destroy, mut_lock,
  mut_unlock, sem_create, sem_destroy, sem_give, sem_get, mb_create, mb_destroy, mb_destroym,
  mb_checkmail, mb_sendmail, mb_recvmail, invalid,
}
use ez_rtos.Kernel.Run.{M, ◌>>=◌, ◌>>◌, done, get, put, load_pd, store_pd, current, raise_error}
use ez_rtos.Task.{
  task_reset, kernel_create_task, kernel_suspend_task, kernel_resume_task, kernel_sleep_task,
  kernel_terminate_task,
}
use ez_rtos.Mutex.{
  mutex_reset, kernel_create_mutex, kernel_destroy_mutex, kernel_lock_mutex, kernel_unlock_mutex,
}
use ez_rtos.Semaphore.{
  semaphore_reset, kernel_create_semaphore, kernel_destroy_semaphore, kernel_semaphore_get,
  kernel_semaphore_give,
}
use ez_rtos.Event.{event_reset, kernel_create_event, kernel_wait_event, kernel_signal_event}
use ez_rtos.EventGroup.{
  event_group_reset, kernel_create_event_group, kernel_destroy_event_group,
  kernel_event_group_set_bits, kernel_event_group_clear_bits, kernel_event_group_wait_bits,
  kernel_event_group_get_bits,
}
use ez_rtos.Mailbox.{
  mailbox_reset, kernel_create_mailbox, kernel_destroy_mailbox, kernel_mailbox_destroy_mail,
  kernel_mailbox_check,
}
use ez_rtos.Mailbox.Transfer.{kernel_mailbox_send, kernel_mailbox_recv}
use ez_rtos.Scheduler.Dispatch.{kernel_dispatch_next_task}

-- What one pass of the loop meets from outside: the timer ticks of each round of the idle loop, for
-- a dispatch that is itself the request and for the one that follows a request, the address of the
-- code of `Task_Terminate`, and what allocated memory holds.
pub record Outside : Type 0 where
  pub arriving : List ℕ
  pub later : List ℕ
  pub terminate_code : Ptr
  pub junk_pd : Pd
  pub junk_count : ℕ

kernel_invalid_request : M (Unit {0})
kernel_invalid_request = raise_error ErrorCode.invalid_request_err

-- The switch on the request.
unfoldable pub serve_request : Outside → KernelRequest → M (Unit {0})
unfolding kernel_create_task kernel_terminate_task kernel_suspend_task kernel_resume_task
    kernel_sleep_task kernel_create_mutex kernel_destroy_mutex kernel_lock_mutex kernel_unlock_mutex
    kernel_create_semaphore kernel_destroy_semaphore kernel_semaphore_give kernel_semaphore_get
    kernel_create_event kernel_wait_event kernel_signal_event kernel_create_event_group
    kernel_destroy_event_group kernel_event_group_set_bits kernel_event_group_clear_bits
    kernel_event_group_wait_bits kernel_event_group_get_bits kernel_create_mailbox
    kernel_destroy_mailbox kernel_mailbox_check kernel_mailbox_send kernel_mailbox_recv
    kernel_mailbox_destroy_mail kernel_dispatch_next_task kernel_invalid_request
serve_request o KernelRequest.task_create = kernel_create_task o.terminate_code o.junk_pd
serve_request o KernelRequest.task_terminate = kernel_terminate_task
serve_request o KernelRequest.task_suspend = kernel_suspend_task
serve_request o KernelRequest.task_resume = kernel_resume_task
serve_request o KernelRequest.task_sleep = kernel_sleep_task
serve_request o KernelRequest.mut_create = kernel_create_mutex >>= λ _. done
serve_request o KernelRequest.mut_destroy = kernel_destroy_mutex
serve_request o KernelRequest.mut_lock = kernel_lock_mutex
serve_request o KernelRequest.mut_unlock = kernel_unlock_mutex
serve_request o KernelRequest.sem_create = kernel_create_semaphore
serve_request o KernelRequest.sem_destroy = kernel_destroy_semaphore
serve_request o KernelRequest.sem_give = kernel_semaphore_give
serve_request o KernelRequest.sem_get = kernel_semaphore_get
serve_request o KernelRequest.e_create = kernel_create_event o.junk_count >>= λ _. done
serve_request o KernelRequest.e_wait = kernel_wait_event
serve_request o KernelRequest.e_signal = kernel_signal_event
serve_request o KernelRequest.eg_create = kernel_create_event_group >>= λ _. done
serve_request o KernelRequest.eg_destroy = kernel_destroy_event_group
serve_request o KernelRequest.eg_setbits = kernel_event_group_set_bits
serve_request o KernelRequest.eg_clearbits = kernel_event_group_clear_bits
serve_request o KernelRequest.eg_waitbits = kernel_event_group_wait_bits
serve_request o KernelRequest.eg_getbits = kernel_event_group_get_bits >>= λ _. done
serve_request o KernelRequest.mb_create = kernel_create_mailbox
serve_request o KernelRequest.mb_destroy = kernel_destroy_mailbox
serve_request o KernelRequest.mb_checkmail = kernel_mailbox_check
serve_request o KernelRequest.mb_sendmail = kernel_mailbox_send
serve_request o KernelRequest.mb_recvmail = kernel_mailbox_recv
serve_request o KernelRequest.mb_destroym = kernel_mailbox_destroy_mail
serve_request o KernelRequest.task_yield = kernel_dispatch_next_task o.arriving
serve_request o KernelRequest.none_request = kernel_dispatch_next_task o.arriving
serve_request o KernelRequest.invalid = kernel_invalid_request

-- The switch that the request asked for, and the return to a task by `Exit_Kernel`.
unfoldable pub leave_kernel : Outside → M (Unit {0})
unfolding kernel_dispatch_next_task
leave_kernel o = do
  k ← get
  if k.kernel_request_cswitch
      then (do
        kernel_dispatch_next_task o.later
        k ← get
        put (record k { kernel_request_cswitch = false }))
      else done
  k ← get
  d ← load_pd k.current_process
  put (record k { current_sp = d.sp })

-- One pass of the loop of `Kernel_Main_Loop`, from `Enter_Kernel` to `Exit_Kernel`.
unfoldable pub main_loop_pass : Outside → M (Unit {0})
unfolding serve_request leave_kernel
main_loop_pass o = do
  k ← get
  me ← load_pd k.current_process
  store_pd k.current_process (some (record me { sp = k.current_sp }))
  k ← get
  put (record k { err = ErrorCode.no_err })
  serve_request o me.request
  c ← current
  d ← load_pd c
  store_pd c (some (record d { request = KernelRequest.none_request }))
  leave_kernel o

-- `Kernel_Main_Loop` for as many passes as there are turns: a turn is what the running task does
-- up to its next entry into the kernel.
pub main_loop_passes : List (M (Unit {0}) × Outside) → M (Unit {0})
unfolding main_loop_pass
main_loop_passes [] = done
main_loop_passes ((turn, o) ∷ turns) = turn >> main_loop_pass o >> main_loop_passes turns

unfoldable pub kernel_main_loop : List ℕ → List (M (Unit {0}) × Outside) → M (Unit {0})
unfolding kernel_dispatch_next_task ptrlist_findtail main_loop_passes
kernel_main_loop arriving turns = do
  k ← get
  put (record k { last_dispatched = ptrlist_findtail k.tasks.list })
  kernel_dispatch_next_task arriving
  main_loop_passes turns

-- The timer that `Kernel_Start` sets up is what makes the ticks.
unfoldable pub kernel_start : List ℕ → List (M (Unit {0}) × Outside) → M (Unit {0})
unfolding kernel_main_loop
kernel_start arriving turns = do
  k ← get
  if not k.kernel_active && ltb 0 k.tasks.count
      then (put (record k { kernel_active = true }) >> kernel_main_loop arriving turns)
      else done

unfoldable pub kernel_reset : M (Unit {0})
unfolding task_reset event_reset event_group_reset mutex_reset semaphore_reset mailbox_reset
kernel_reset = do
  k ← get
  put (record k {
    kernel_active = false;
    tick_count = 0;
    last_dispatched = null;
    kernel_request_cswitch = false;
    err = ErrorCode.no_err;
    preemptive_cswitch_allowed = true;
    ticks_since_last_cswitch = 0;
  })
  task_reset
  event_reset
  event_group_reset
  mutex_reset
  semaphore_reset
  mailbox_reset
