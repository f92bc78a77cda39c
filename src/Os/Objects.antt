-- ===== src/Os/Objects.antt =====
-- The calls of p2/rtos/os.c on events, mutexes, semaphores and event groups.
use ez_rtos.Base.{ℕ, if◌then◌else◌}
use ez_rtos.Kernel.Types.{KernelRequest, Pd}
use ez_rtos.Kernel.Run.{M, pure, ◌>>=◌, ◌>>◌, get}
use ez_rtos.Mutex.{kernel_create_mutex}
use ez_rtos.Semaphore.{kernel_create_semaphore_direct}
use ez_rtos.Event.{kernel_create_event}
use ez_rtos.EventGroup.{kernel_create_event_group}
use ez_rtos.Os.{
  Outcome, entered, returned, ask, ask_if_active, reply, is_no_err, unless_max_object, unless_error,
}

unfoldable pub event_create : ℕ → M Outcome
unfolding kernel_create_event
event_create junk = do
  k ← get
  if k.kernel_active
      then (ask (λ d. record d { request = KernelRequest.e_create }) >> pure entered)
      else (do v ← kernel_create_event junk; v ← unless_max_object v; pure (returned v))

unfoldable pub event_create_reply : M ℕ
event_create_reply = reply >>= unless_max_object

unfoldable pub event_wait : ℕ → M Outcome
event_wait e = ask_if_active (λ d. record d {
  request = KernelRequest.e_wait;
  request_args = record (d.request_args) { arg0 = e };
})

unfoldable pub event_signal : ℕ → M Outcome
event_signal e = ask_if_active (λ d. record d {
  request = KernelRequest.e_signal;
  request_args = record (d.request_args) { arg0 = e };
})

unfoldable pub mutex_create : M Outcome
unfolding kernel_create_mutex
mutex_create = do
  k ← get
  if k.kernel_active
      then (ask (λ d. record d { request = KernelRequest.mut_create }) >> pure entered)
      else (do v ← kernel_create_mutex; v ← unless_max_object v; pure (returned v))

unfoldable pub mutex_create_reply : M ℕ
mutex_create_reply = reply >>= unless_max_object

-- `return (err > 0)? 0:1;`
unfoldable pub destroy_result : M ℕ
destroy_result = do k ← get; pure (if is_no_err k.err then 1 else 0)

-- The calls that destroy an object do nothing while the kernel is inactive, and then return by the
-- last error; `destroy_result` is also what follows their `Enter_Kernel`.
abbrev pub ask_or_result : (Pd → Pd) → M Outcome
unfolding destroy_result
ask_or_result f = do
  k ← get
  if k.kernel_active then (ask f >> pure entered) else (destroy_result >>= λ v. pure (returned v))

unfoldable pub mutex_destroy : ℕ → M Outcome
unfolding destroy_result
mutex_destroy m = ask_or_result (λ d. record d {
  request = KernelRequest.mut_destroy;
  request_args = record (d.request_args) { arg0 = m };
})

unfoldable pub mutex_lock : ℕ → M Outcome
mutex_lock m = ask_if_active (λ d. record d {
  request = KernelRequest.mut_lock;
  request_args = record (d.request_args) { arg0 = m };
})

unfoldable pub mutex_unlock : ℕ → M Outcome
mutex_unlock m = ask_if_active (λ d. record d {
  request = KernelRequest.mut_unlock;
  request_args = record (d.request_args) { arg0 = m };
})

unfoldable pub semaphore_create : ℕ → ℕ → M Outcome
unfolding kernel_create_semaphore_direct
semaphore_create initial_count is_binary = do
  k ← get
  if k.kernel_active
      then (ask (λ d. record d {
        request = KernelRequest.sem_create;
        request_args = record (d.request_args) { arg0 = initial_count; arg1 = is_binary };
      })
          >> pure entered)
      else (do
        v ← kernel_create_semaphore_direct initial_count is_binary
        v ← unless_error v
        pure (returned v))

unfoldable pub semaphore_create_reply : M ℕ
semaphore_create_reply = reply >>= unless_error

unfoldable pub semaphore_destroy : ℕ → M Outcome
unfolding destroy_result
semaphore_destroy s = ask_or_result (λ d. record d {
  request = KernelRequest.sem_destroy;
  request_args = record (d.request_args) { arg0 = s };
})

unfoldable pub semaphore_give : ℕ → ℕ → M Outcome
semaphore_give s amount = ask_if_active (λ d. record d {
  request = KernelRequest.sem_give;
  request_args = record (d.request_args) { arg0 = s; arg1 = amount };
})

unfoldable pub semaphore_get : ℕ → ℕ → M Outcome
semaphore_get s amount = ask_if_active (λ d. record d {
  request = KernelRequest.sem_get;
  request_args = record (d.request_args) { arg0 = s; arg1 = amount };
})

unfoldable pub event_group_create : M Outcome
unfolding kernel_create_event_group
event_group_create = do
  k ← get
  if k.kernel_active
      then (ask (λ d. record d { request = KernelRequest.eg_create }) >> pure entered)
      else (do v ← kernel_create_event_group; v ← unless_max_object v; pure (returned v))

unfoldable pub event_group_create_reply : M ℕ
event_group_create_reply = reply >>= unless_max_object

unfoldable pub event_group_destroy : ℕ → M Outcome
unfolding destroy_result
event_group_destroy eg = ask_or_result (λ d. record d {
  request = KernelRequest.eg_destroy;
  request_args = record (d.request_args) { arg0 = eg };
})

unfoldable pub event_group_set_bits : ℕ → ℕ → M Outcome
event_group_set_bits e bits_to_set = ask_if_active (λ d. record d {
  request = KernelRequest.eg_setbits;
  request_args = record (d.request_args) { arg0 = e; arg1 = bits_to_set };
})

unfoldable pub event_group_clear_bits : ℕ → ℕ → M Outcome
event_group_clear_bits e bits_to_clear = ask_if_active (λ d. record d {
  request = KernelRequest.eg_clearbits;
  request_args = record (d.request_args) { arg0 = e; arg1 = bits_to_clear };
})

unfoldable pub event_group_wait_bits : ℕ → ℕ → ℕ → ℕ → M Outcome
event_group_wait_bits e bits_to_wait wait_all_bits timeout = ask_if_active (λ d. record d {
  request = KernelRequest.eg_waitbits;
  request_args = record (d.request_args) { arg0 = e; arg1 = bits_to_wait; arg2 = wait_all_bits };
  request_timeout = timeout;
})

-- The identifier is not written: the request keeps the argument of the caller's last call.
unfoldable pub event_group_get_bits : ℕ → M Outcome
event_group_get_bits _ = ask_if_active (λ d. record d { request = KernelRequest.eg_getbits })

unfoldable pub event_group_get_bits_reply : M ℕ
event_group_get_bits_reply = reply
