-- ===== src/Task.antt =====
-- p2/rtos/kernel/task/task.c, `findProcessByPID` of kernel.c, and the stack that
-- hardware/cpuarch.c prepares.
pub mod Suspend
pub mod Create
pub mod Start
use ez_rtos.Base.{
  ℕ, ◌/◌, ◌%◌, Bool, ◌||◌, some, ◌==◌, if◌then◌else◌, Ptr, null, add_word, sub_word, is_negative,
  to_priority,
}
use ez_rtos.PtrList.{PtrList, nodes, empty, ptrlist_find, ptrlist_remove}
use ez_rtos.PtrList.Walk.{first_object}
use ez_rtos.Kernel.Types.{
  ErrorCode, ProcessState, KernelRequest, Pd, is_ready, is_running, is_sleeping, is_suspended,
  unprocessable_task_state_err, max_object_err, object_not_found_err, malloc_failed_err, dead,
  ready, sleeping, suspended, none_request,
}
use ez_rtos.Kernel.Run.{
  M, pure, ◌>>=◌, ◌>>◌, from_option, get, put, load_pd, store_pd, set_state, set_retval, current,
  request_cswitch, raise_error, malloc, memset_zero, write_byte, list_add, ok,
}

abbrev pub max_thread : ℕ
max_thread = 16

unfoldable pub task_reset : M (Unit {0})
task_reset k = ok tt (record k {
  tasks = record (k.tasks) { list = empty k.tasks.list.addr; count = 0; last_id = 0 };
})

-- The argument is an `int`.
unfoldable pub find_process_by_pid : ℕ → M Ptr
find_process_by_pid pid k =
    if pid == 0 || is_negative pid
    then ok null k
    else from_option (first_object k.tasks.cell (λ d. d.pid == pid) (nodes k.tasks.list)) k

abbrev pub low_byte : ℕ → ℕ
low_byte w = w % 256

abbrev pub high_byte : ℕ → ℕ
high_byte w = w / 256 % 256

-- `*sp-- = v`.
abbrev push_byte : ℕ → Ptr → M Ptr
push_byte v sp k = ok (sub_word sp 1) (record k { bytes = write_byte sp v k.bytes })

-- `terminate` is the address of the code of `Task_Terminate`. The result is the new `*sp_ptr`.
unfoldable pub kernel_init_task_stack : Ptr → Ptr → Ptr → M Ptr
kernel_init_task_stack terminate sp f = do
  sp ← push_byte (low_byte terminate) sp
  sp ← push_byte (high_byte terminate) sp
  sp ← push_byte 0 sp
  sp ← push_byte (low_byte f) sp
  sp ← push_byte (high_byte f) sp
  sp ← push_byte 0 sp
  pure (sub_word sp 34)

-- The fields of a new descriptor. `junk` is what the allocated memory held: the request's
-- arguments, result and timeout, and the last state, are not set.
new_pd : Pd → ℕ → Ptr → ℕ → ℕ → ℕ → Pd
new_pd junk pid f stack_size py arg = record junk {
  pid = pid;
  pri = py;
  stack_size = stack_size;
  arg = arg;
  request = KernelRequest.none_request;
  state = ProcessState.ready;
  code = f;
  starvation_ticks = 0;
}

give_stack : Ptr → Ptr → Ptr → ℕ → ℕ → M ℕ
unfolding malloc memset_zero kernel_init_task_stack
give_stack terminate p f stack_size pid = do
  stack ← malloc
  d ← load_pd p
  store_pd p (some (record d { stack = stack }))
  if stack == null then (raise_error ErrorCode.malloc_failed_err >> pure 0) else (do
    memset_zero stack stack_size
    sp ← kernel_init_task_stack terminate (add_word stack (sub_word stack_size 1)) f
    d ← load_pd p
    store_pd p (some (record d { sp = sp }))
    pure pid)

register_task : Ptr → Ptr → PtrList → Pd → Ptr → ℕ → ℕ → ℕ → M ℕ
unfolding new_pd give_stack
register_task terminate p list junk f stack_size py arg = do
  k ← get
  let pid = add_word k.tasks.last_id 1
  put (record k {
    tasks = record (k.tasks) { list = list; count = add_word k.tasks.count 1; last_id = pid };
  })
  store_pd p (some (new_pd junk pid f stack_size py arg))
  give_stack terminate p f stack_size pid

unfoldable pub kernel_create_task_direct : Ptr → Pd → Ptr → ℕ → ℕ → ℕ → M ℕ
unfolding register_task malloc list_add
kernel_create_task_direct terminate junk f stack_size py arg = do
  k ← get
  if k.tasks.count == max_thread then (raise_error ErrorCode.max_object_err >> pure 0) else (do
    p ← malloc
    if p == null then (raise_error ErrorCode.malloc_failed_err >> pure 0) else (do
      list ← list_add k.tasks.list p
      register_task terminate p list junk f stack_size py arg))

unfoldable pub kernel_create_task : Ptr → Pd → M (Unit {0})
unfolding kernel_create_task_direct
kernel_create_task terminate junk = do
  c ← current
  me ← load_pd c
  pid ←
      kernel_create_task_direct terminate junk me.request_args.arg0 me.request_args.arg1
        (to_priority me.request_args.arg2) me.request_args.arg3
  set_retval c pid

abbrev pub can_suspend : ProcessState → Bool
can_suspend s = is_ready s || is_running s || is_sleeping s

suspend_at : Ptr → M (Unit {0})
suspend_at p = do
  d ← load_pd p
  if can_suspend d.state
      then store_pd p (
          some (record d {
            last_state = if is_running d.state then ProcessState.ready else d.state;
            state = ProcessState.suspended;
          }))
      else raise_error ErrorCode.unprocessable_task_state_err

unfoldable pub kernel_suspend_task : M (Unit {0})
unfolding find_process_by_pid suspend_at
kernel_suspend_task = do
  c ← current
  me ← load_pd c
  p ← find_process_by_pid me.request_args.arg0
  if p == null then raise_error ErrorCode.object_not_found_err else suspend_at p

resume_at : Ptr → M (Unit {0})
resume_at p = do
  d ← load_pd p
  if is_suspended d.state
      then store_pd p (
          some (record d {
            state = if is_running d.last_state then ProcessState.ready else d.last_state;
            last_state = ProcessState.suspended;
          }))
      else raise_error ErrorCode.unprocessable_task_state_err

unfoldable pub kernel_resume_task : M (Unit {0})
unfolding find_process_by_pid resume_at
kernel_resume_task = do
  c ← current
  me ← load_pd c
  p ← find_process_by_pid me.request_args.arg0
  if p == null then raise_error ErrorCode.object_not_found_err else resume_at p

-- The timeout is set by the call of the task.
unfoldable pub kernel_sleep_task : M (Unit {0})
kernel_sleep_task = do c ← current; set_state c ProcessState.sleeping; request_cswitch

-- The stack is freed, which changes nothing that the model keeps. The descriptor itself is never
-- freed.
unfoldable pub kernel_terminate_task : M (Unit {0})
kernel_terminate_task = do
  c ← current
  set_state c ProcessState.dead
  k ← get
  put (record k { tasks = record (k.tasks) { count = sub_word k.tasks.count 1 } })
  k ← get
  (list, _) ← from_option (ptrlist_remove k.tasks.list (ptrlist_find k.tasks.list c))
  put (record k { tasks = record (k.tasks) { list = list } })
  request_cswitch
