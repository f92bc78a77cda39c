-- ===== src/Kernel/Types.antt =====
-- p2/rtos/kernel/kernel_shared.h and kernel_errors.h: states, requests, error codes and the
-- process descriptor. All optional modules of os.h are enabled.
use ez_rtos.Base.{ℕ, Bool, true, false, Ptr}

pub data ErrorCode : Type 0 where
  no_err invalid_arg_err invalid_request_err kernel_inactive_err : ErrorCode
  unprocessable_task_state_err max_object_err object_not_found_err : ErrorCode
  malloc_failed_err unknown_err : ErrorCode

pub data ProcessState : Type 0 where
  dead ready running sleeping suspended : ProcessState
  wait_event wait_eventg wait_mutex wait_semaphore wait_mailbox : ProcessState

-- `request` of a process.
pub data KernelRequest : Type 0 where
  none_request task_create task_yield task_terminate task_suspend task_resume : KernelRequest
  task_sleep : KernelRequest
  e_create e_wait e_signal : KernelRequest
  eg_create eg_destroy eg_setbits eg_clearbits eg_waitbits eg_getbits : KernelRequest
  mut_create mut_destroy mut_lock mut_unlock : KernelRequest
  sem_create sem_destroy sem_give sem_get : KernelRequest
  mb_create mb_destroy mb_destroym mb_checkmail mb_sendmail mb_recvmail : KernelRequest
  invalid : KernelRequest

-- `request_args`: each is a word, read as an `int` or as a pointer. The fifth is never used.
pub record Args : Type 0 where
  pub arg0 : ℕ
  pub arg1 : ℕ
  pub arg2 : ℕ
  pub arg3 : ℕ
  pub arg4 : ℕ

-- `PD`.
pub record Pd : Type 0 where
  pub pid : ℕ
  pub pri : ℕ
  pub state : ProcessState
  pub stack_size : ℕ
  pub stack : Ptr
  pub sp : Ptr
  pub code : Ptr
  pub arg : ℕ
  pub request : KernelRequest
  pub request_args : Args
  pub request_retval : ℕ
  pub request_timeout : ℕ
  pub last_state : ProcessState
  pub starvation_ticks : ℕ

-- The C comparisons `state == S`, as tests.
abbrev pub is_dead : ProcessState → Bool
is_dead ProcessState.dead = true
is_dead _ = false

abbrev pub is_ready : ProcessState → Bool
is_ready ProcessState.ready = true
is_ready _ = false

abbrev pub is_running : ProcessState → Bool
is_running ProcessState.running = true
is_running _ = false

abbrev pub is_sleeping : ProcessState → Bool
is_sleeping ProcessState.sleeping = true
is_sleeping _ = false

abbrev pub is_suspended : ProcessState → Bool
is_suspended ProcessState.suspended = true
is_suspended _ = false

abbrev pub is_wait_eventg : ProcessState → Bool
is_wait_eventg ProcessState.wait_eventg = true
is_wait_eventg _ = false

abbrev pub is_wait_mutex : ProcessState → Bool
is_wait_mutex ProcessState.wait_mutex = true
is_wait_mutex _ = false

abbrev pub is_wait_semaphore : ProcessState → Bool
is_wait_semaphore ProcessState.wait_semaphore = true
is_wait_semaphore _ = false

abbrev pub is_wait_mailbox : ProcessState → Bool
is_wait_mailbox ProcessState.wait_mailbox = true
is_wait_mailbox _ = false
