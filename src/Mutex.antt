-- ===== src/Mutex.antt =====
-- p2/rtos/kernel/mutex/mutex.c: recursive mutexes with priority inheritance.
pub mod Destroy
pub mod Lock
pub mod Unlock
pub mod Nesting
pub mod Refine
pub mod Release
pub mod Safety
use ez_rtos.Base.{
  ℕ, none, some, ltb, leb, ◌==◌, if◌then◌else◌, Ptr, null, add_word, sub_word, to_priority,
}
use ez_rtos.PtrList.{PtrList, nodes, empty, ptrlist_remove}
use ez_rtos.PtrList.Walk.{first_object, stop_at}
use ez_rtos.Queue.{new_int_queue, new_ptr_queue, enqueue_int, enqueue_ptr, dequeue_int, dequeue_ptr}
use ez_rtos.Kernel.Types.{ErrorCode, ProcessState, is_wait_mutex}
use ez_rtos.Kernel.Objects.{Mutex}
use ez_rtos.Kernel.Run.{
  M, pure, ◌>>=◌, ◌>>◌, done, from_option, get, put, load_pd, load_mutex, store_pd, store_mutex,
  set_state, current, request_cswitch, raise_error, malloc, list_add, reply_if_active, ok, fault,
}

abbrev pub max_mutex : ℕ
max_mutex = 8

abbrev pub lowest_priority : ℕ
lowest_priority = 10

unfoldable pub mutex_reset : M (Unit {0})
mutex_reset k = ok tt (record k {
  mutexes = record (k.mutexes) { list = empty k.mutexes.list.addr; count = 0; last_id = 0 };
})

unfoldable pub find_mutex_by_mutex_id : ℕ → M Ptr
find_mutex_by_mutex_id m =
    if m == 0 then (raise_error ErrorCode.invalid_arg_err >> pure null) else (do
      k ← get
      found ← from_option (first_object k.mutexes.cell (λ mut. mut.id == m) (nodes k.mutexes.list))
      if found == null
          then (raise_error ErrorCode.object_not_found_err >> pure null)
          else pure found)

new_mutex : ℕ → Mutex
new_mutex id = record {
  id = id;
  owner = 0;
  lock_count = 0;
  highest_priority = lowest_priority;
  owner_orig_priority = 0;
  wait_queue = new_ptr_queue;
  orig_priority = new_int_queue;
}

-- What follows the allocation of the object and of its list node. `owner_orig_priority` is not set
-- by the code, and is written before it is read; the model starts it at 0.
register_mutex : Ptr → PtrList → M ℕ
unfolding new_mutex
register_mutex mut list k =
    let id = add_word k.mutexes.last_id 1 in
    (put (record k {
      mutexes = record (k.mutexes) {
        list = list;
        count = add_word k.mutexes.count 1;
        last_id = id;
      };
    })
        >> (if mut == null then (λ _. fault) else store_mutex mut (some (new_mutex id)))
        >> reply_if_active id
        >> pure id)
      k

unfoldable pub kernel_create_mutex : M ℕ
unfolding register_mutex malloc list_add
kernel_create_mutex = do
  k ← get
  if leb max_mutex k.mutexes.count
      then (raise_error ErrorCode.max_object_err >> reply_if_active 0 >> pure 0)
      else (do mut ← malloc; list ← list_add k.mutexes.list mut; register_mutex mut list)

-- `free(mut); ptrlist_remove(&MutexList, i); --Mutex_Count;`
drop_mutex : Ptr → Ptr → M (Unit {0})
drop_mutex i mut = do
  store_mutex mut none
  k ← get
  (list, _) ← from_option (ptrlist_remove k.mutexes.list i)
  put (record k {
    mutexes = record (k.mutexes) { list = list; count = sub_word k.mutexes.count 1 };
  })

unfoldable pub kernel_destroy_mutex : M (Unit {0})
unfolding drop_mutex
kernel_destroy_mutex = do
  p ← current
  me ← load_pd p
  k ← get
  (i, mut) ←
      from_option
        (stop_at k.mutexes.cell (λ m. m.id == me.request_args.arg0) null (nodes k.mutexes.list))
  if mut == null then raise_error ErrorCode.object_not_found_err else drop_mutex i mut

-- The mutex's highest priority once a task of priority `pri` waits, and that task's own.
abbrev pub raised : ℕ → ℕ → ℕ
raised highest pri = if ltb highest pri then highest else if ltb pri highest then pri else highest

abbrev pub inherited : ℕ → ℕ → ℕ
inherited highest pri = if ltb highest pri then to_priority highest else pri

wait_for_mutex : Ptr → Ptr → M (Unit {0})
unfolding malloc
wait_for_mutex p m = do
  mut ← load_mutex m
  me ← load_pd p
  qe ← malloc
  (waiters, _) ← from_option (enqueue_ptr mut.wait_queue qe p)
  qe ← malloc
  (priorities, _) ← from_option (enqueue_int mut.orig_priority qe me.pri)
  store_mutex m (
      some (record mut {
        wait_queue = waiters;
        orig_priority = priorities;
        highest_priority = raised mut.highest_priority me.pri;
      }))
  store_pd p (
      some (record me {
        pri = inherited mut.highest_priority me.pri;
        state = ProcessState.wait_mutex;
      }))
  request_cswitch

lock_at : Ptr → Ptr → M (Unit {0})
unfolding wait_for_mutex
lock_at p m = do
  mut ← load_mutex m
  me ← load_pd p
  if mut.owner == 0
      then store_mutex m (
          some (record mut {
            owner = me.pid;
            owner_orig_priority = me.pri;
            highest_priority = me.pri;
            lock_count = add_word mut.lock_count 1;
          }))
      else if mut.owner == me.pid
      then store_mutex m (some (record mut { lock_count = add_word mut.lock_count 1 }))
      else wait_for_mutex p m

unfoldable pub kernel_lock_mutex : M (Unit {0})
unfolding find_mutex_by_mutex_id lock_at
kernel_lock_mutex = do
  p ← current
  me ← load_pd p
  m ← find_mutex_by_mutex_id me.request_args.arg0
  if m == null then done else lock_at p m

-- The new owner wakes at the mutex's highest priority, and the caller yields.
wake_owner : Ptr → ℕ → M (Unit {0})
wake_owner p highest = do
  d ← load_pd p
  store_pd p (some (record d { state = ProcessState.ready; pri = to_priority highest }))
  c ← current
  set_state c ProcessState.ready
  request_cswitch

unfoldable pub kernel_lock_mutex_from_queue : Ptr → M (Unit {0})
unfolding wake_owner
kernel_lock_mutex_from_queue m = do
  mut ← load_mutex m
  let (p, waiters) = dequeue_ptr mut.wait_queue
  let (pri, priorities) = dequeue_int mut.orig_priority
  d ← load_pd p
  store_mutex m (
      some (record mut {
        owner = d.pid;
        owner_orig_priority = to_priority pri;
        lock_count = add_word mut.lock_count 1;
        wait_queue = waiters;
        orig_priority = priorities;
      }))
  if is_wait_mutex d.state then wake_owner p mut.highest_priority else done

-- The owner gives the mutex up: its own priority comes back.
give_up : Ptr → Ptr → M (Unit {0})
unfolding kernel_lock_mutex_from_queue
give_up p m = do
  mut ← load_mutex m
  me ← load_pd p
  store_pd p (some (record me { pri = mut.owner_orig_priority }))
  if mut.wait_queue.count == 0
      then store_mutex m (some (record mut { lock_count = 0; owner = 0 }))
      else (store_mutex m (some (record mut { lock_count = 0 })) >> kernel_lock_mutex_from_queue m)

unlock_at : Ptr → Ptr → M (Unit {0})
unfolding give_up
unlock_at p m = do
  mut ← load_mutex m
  me ← load_pd p
  if mut.owner == me.pid
      then (do
        store_mutex m (some (record mut { lock_count = sub_word mut.lock_count 1 }))
        if ltb 0 (sub_word mut.lock_count 1) then done else give_up p m)
      else raise_error ErrorCode.object_not_found_err

unfoldable pub kernel_unlock_mutex : M (Unit {0})
unfolding find_mutex_by_mutex_id unlock_at
kernel_unlock_mutex = do
  p ← current
  me ← load_pd p
  m ← find_mutex_by_mutex_id me.request_args.arg0
  if m == null then done else unlock_at p m
