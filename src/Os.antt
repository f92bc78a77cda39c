-- ===== src/Os.antt =====
-- p2/rtos/os.c: the calls that tasks make. A call writes its request into the caller's descriptor
-- and enters the kernel, where a pass of the main loop serves it (Main.antt). So a call is
-- modelled in two parts: up to `Enter_Kernel`, and after it (`_reply`). The prints are not
-- modelled.
pub mod Suspend
pub mod Objects
pub mod Mailboxes
use ez_rtos.Base.{ℕ, Bool, true, false, some, List, if◌then◌else◌, Ptr}
use ez_rtos.Kernel.Types.{ErrorCode, KernelRequest, Pd, no_err, kernel_inactive_err, max_object_err}
use ez_rtos.Kernel.Run.{M, pure, ◌>>=◌, ◌>>◌, get, load_pd, store_pd, current, raise_error}
use ez_rtos.Task.{kernel_create_task_direct}
use ez_rtos.Main.{Outside, kernel_start, kernel_reset}

-- A call has entered the kernel, or is over and returns a value.
pub data Outcome : Type 0 where
  entered : Outcome
  returned : ℕ → Outcome

-- The writes to `Current_Process` before `Enter_Kernel`.
abbrev pub ask : (Pd → Pd) → M (Unit {0})
ask f = do p ← current; d ← load_pd p; store_pd p (some (f d))

-- A call that an inactive kernel refuses.
abbrev pub ask_if_active : (Pd → Pd) → M Outcome
ask_if_active f = do
  k ← get
  if k.kernel_active
      then (ask f >> pure entered)
      else (raise_error ErrorCode.kernel_inactive_err >> pure (returned 0))

-- `request_retval`, read after `Enter_Kernel`.
abbrev pub reply : M ℕ
reply = do p ← current; d ← load_pd p; pure d.request_retval

abbrev pub is_no_err : ErrorCode → Bool
is_no_err ErrorCode.no_err = true
is_no_err _ = false

abbrev pub is_max_object_err : ErrorCode → Bool
is_max_object_err ErrorCode.max_object_err = true
is_max_object_err _ = false

-- `if (err == MAX_OBJECT_ERR) return 0; return retval;`
abbrev pub unless_max_object : ℕ → M ℕ
unless_max_object v = do k ← get; pure (if is_max_object_err k.err then 0 else v)

-- `if (err != NO_ERR) return 0; return retval;`
abbrev pub unless_error : ℕ → M ℕ
unless_error v = do k ← get; pure (if is_no_err k.err then v else 0)

unfoldable pub os_init : M (Unit {0})
unfolding kernel_reset
os_init = kernel_reset

unfoldable pub os_start : List ℕ → List (M (Unit {0}) × Outside) → M (Unit {0})
unfolding kernel_start
os_start = kernel_start

unfoldable pub task_create : Ptr → Pd → Ptr → ℕ → ℕ → ℕ → M Outcome
unfolding kernel_create_task_direct
task_create terminate junk f stack_size py a = do
  k ← get
  if k.kernel_active
      then (ask (λ d. record d {
        request = KernelRequest.task_create;
        request_args = record (d.request_args) { arg0 = f; arg1 = stack_size; arg2 = py; arg3 = a };
      })
          >> pure entered)
      else (do
        v ← kernel_create_task_direct terminate junk f stack_size py a
        v ← unless_max_object v
        pure (returned v))

unfoldable pub task_create_reply : M ℕ
task_create_reply = reply >>= unless_max_object

unfoldable pub task_terminate : M Outcome
task_terminate = ask_if_active (λ d. record d { request = KernelRequest.task_terminate })

unfoldable pub task_yield : M Outcome
task_yield = ask_if_active (λ d. record d { request = KernelRequest.task_yield })

-- -1 is the word 65535.
unfoldable pub task_get_arg : M ℕ
task_get_arg = do
  k ← get
  if k.kernel_active then (load_pd k.current_process >>= λ d. pure d.arg) else pure 65535

unfoldable pub task_suspend : ℕ → M Outcome
task_suspend p = ask_if_active (λ d. record d {
  request = KernelRequest.task_suspend;
  request_args = record (d.request_args) { arg0 = p };
})

unfoldable pub task_resume : ℕ → M Outcome
task_resume p = ask_if_active (λ d. record d {
  request = KernelRequest.task_resume;
  request_args = record (d.request_args) { arg0 = p };
})

unfoldable pub task_sleep : ℕ → M Outcome
task_sleep t =
    ask_if_active (λ d. record d { request = KernelRequest.task_sleep; request_timeout = t })
