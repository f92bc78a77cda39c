-- ===== src/Semaphore.antt =====
-- p2/rtos/kernel/semaphore/semaphore.c: counting and binary semaphores. `sem->count` and the amounts
-- are `int`s, kept as words.
pub mod Destroy
pub mod Get
pub mod Give
pub mod Serve
pub mod Waiters
pub mod Waiting
use ez_rtos.Base.{
  ℕ, zero, suc, ◌+◌, not, ◌&&◌, none, some, ltb, leb, ◌==◌, if◌then◌else◌, length, Ptr, null,
  add_word, sub_word, is_negative,
}
use ez_rtos.PtrList.{PtrList, nodes, empty, ptrlist_remove}
use ez_rtos.PtrList.Walk.{first_object, stop_at}
use ez_rtos.Queue.{new_ptr_queue, enqueue_ptr, dequeue_int, queue_peek_ptr}
use ez_rtos.Kernel.Types.{
  ErrorCode, ProcessState, is_wait_semaphore, unprocessable_task_state_err, max_object_err,
  object_not_found_err, ready, wait_semaphore,
}
use ez_rtos.Kernel.Objects.{Semaphore}
use ez_rtos.Kernel.Run.{
  M, pure, ◌>>=◌, ◌>>◌, done, from_option, get, put, load_pd, load_semaphore, store_pd,
  store_semaphore, set_state, set_retval, current, request_cswitch, raise_error, malloc, list_add,
  ok, fault, out_of_fuel,
}
use mathlib.Core.Option.{some, none}

abbrev pub max_semaphore : ℕ
max_semaphore = 8

-- `&SemaphoreList` keeps its address.
unfoldable pub semaphore_reset : M (Unit {0})
semaphore_reset k = ok tt (record k {
  semaphores = record (k.semaphores) {
    list = empty k.semaphores.list.addr;
    count = 0;
    last_id = 0;
  };
})

unfoldable pub find_semaphore_by_id : ℕ → M Ptr
find_semaphore_by_id s k =
    from_option (first_object k.semaphores.cell (λ sem. sem.id == s) (nodes k.semaphores.list)) k

-- The fields that a new semaphore gets.
abbrev pub initial_count_of : ℕ → ℕ → ℕ
initial_count_of initial_count is_binary =
    if ltb 0 is_binary
    then (if is_negative initial_count then 0 else if leb 1 initial_count then 1 else 0)
    else initial_count

new_semaphore : ℕ → ℕ → ℕ → Semaphore
new_semaphore id initial_count is_binary = record {
  id = id;
  count = initial_count_of initial_count is_binary;
  is_binary = if ltb 0 is_binary then 1 else 0;
  wait_queue = new_ptr_queue;
}

-- What follows the allocation of the object and of its list node.
register_semaphore : Ptr → PtrList → ℕ → ℕ → M ℕ
unfolding new_semaphore
register_semaphore sem list initial_count is_binary k =
    let id = add_word k.semaphores.last_id 1 in
    (put (record k {
      semaphores = record (k.semaphores) {
        list = list;
        count = add_word k.semaphores.count 1;
        last_id = id;
      };
    })
        >> (if sem == null
            then (λ _. fault)
            else store_semaphore sem (some (new_semaphore id initial_count is_binary)))
        >> pure id)
      k

unfoldable pub kernel_create_semaphore_direct : ℕ → ℕ → M ℕ
unfolding register_semaphore malloc list_add
kernel_create_semaphore_direct initial_count is_binary = do
  k ← get
  if leb max_semaphore k.semaphores.count
      then (raise_error ErrorCode.max_object_err >> pure 0)
      else (do
        sem ← malloc
        list ← list_add k.semaphores.list sem
        register_semaphore sem list initial_count is_binary)

unfoldable pub kernel_create_semaphore : M (Unit {0})
unfolding kernel_create_semaphore_direct
kernel_create_semaphore = do
  p ← current
  me ← load_pd p
  id ← kernel_create_semaphore_direct me.request_args.arg0 me.request_args.arg1
  set_retval p id

-- `free(sem); ptrlist_remove(&SemaphoreList, i); --Semaphore_Count;`
drop_semaphore : Ptr → Ptr → M (Unit {0})
drop_semaphore i sem = do
  store_semaphore sem none
  k ← get
  (list, _) ← from_option (ptrlist_remove k.semaphores.list i)
  put (record k {
    semaphores = record (k.semaphores) { list = list; count = sub_word k.semaphores.count 1 };
  })

unfoldable pub kernel_destroy_semaphore : M (Unit {0})
unfolding drop_semaphore
kernel_destroy_semaphore = do
  p ← current
  me ← load_pd p
  k ← get
  (i, sem) ←
      from_option (
        stop_at k.semaphores.cell (λ s. s.id == me.request_args.arg0) null
          (nodes k.semaphores.list))
  if sem == null then raise_error ErrorCode.object_not_found_err else drop_semaphore i sem

-- A round of the loop of `Kernel_Semaphore_Get_From_Queue` after the test of the semaphore: the
-- waiter `head` takes its amount and is woken.
unfoldable pub serve_head : Ptr → Ptr → M (Unit {0})
serve_head s head = do
  sem ← load_semaphore s
  h ← load_pd head
  store_semaphore s (
      some (record sem {
        count = sub_word sem.count h.request_args.arg1;
        wait_queue = (dequeue_int sem.wait_queue).1;
      }))
  set_state head ProcessState.ready

-- The loop, with one round on fuel for each test of its condition.
unfoldable pub get_from_queue_loop : ℕ → Ptr → M (Unit {0})
unfolding serve_head
get_from_queue_loop zero s = λ _. out_of_fuel
get_from_queue_loop (suc n) s = do
  let rest = get_from_queue_loop n s
  sem ← load_semaphore s
  let head = queue_peek_ptr sem.wait_queue
  h ← load_pd head
  if is_negative (sub_word sem.count h.request_args.arg1)
      then done
      else if is_wait_semaphore h.state
      then (serve_head s head >> rest)
      else raise_error ErrorCode.unprocessable_task_state_err

-- Each round but the last takes one waiter off the queue.
unfoldable pub kernel_semaphore_get_from_queue : Ptr → M (Unit {0})
unfolding get_from_queue_loop
kernel_semaphore_get_from_queue s = do
  sem ← load_semaphore s
  get_from_queue_loop (length sem.wait_queue.elements + 1) s

-- The amount that a binary semaphore makes of a request.
abbrev pub clamp : ℕ → ℕ
clamp amount = if is_negative amount then 0 else if ltb 1 amount then 1 else amount

abbrev pub requested : Semaphore → ℕ → ℕ
requested sem amount = if sem.is_binary == 0 then amount else clamp amount

-- The clamped amount is written back into the request.
write_amount : Ptr → Semaphore → M ℕ
write_amount p sem = do
  me ← load_pd p
  let amount = requested sem me.request_args.arg1
  store_pd p (some (record me { request_args = record (me.request_args) { arg1 = amount } }))
  pure amount

wait_for_semaphore : Ptr → Ptr → Semaphore → M (Unit {0})
unfolding malloc
wait_for_semaphore p s sem = do
  qe ← malloc
  (q, _) ← from_option (enqueue_ptr sem.wait_queue qe p)
  store_semaphore s (some (record sem { wait_queue = q }))
  set_state p ProcessState.wait_semaphore
  request_cswitch

get_amount : Ptr → Ptr → M (Unit {0})
unfolding write_amount wait_for_semaphore
get_amount p s = do
  sem ← load_semaphore s
  amount ← write_amount p sem
  if is_negative (sub_word sem.count amount)
      then wait_for_semaphore p s sem
      else store_semaphore s (some (record sem { count = sub_word sem.count amount }))

unfoldable pub kernel_semaphore_get : M (Unit {0})
unfolding find_semaphore_by_id get_amount
kernel_semaphore_get = do
  p ← current
  me ← load_pd p
  s ← find_semaphore_by_id me.request_args.arg0
  if s == null then raise_error ErrorCode.object_not_found_err else get_amount p s

-- `sem->count += amount`, kept to 1 in a binary semaphore.
abbrev pub given : Semaphore → ℕ → ℕ
given sem amount =
    let c = add_word sem.count amount in
    if sem.is_binary == 0 then c else if is_negative c then c else if ltb 1 c then 1 else c

give_amount : Ptr → ℕ → M (Unit {0})
unfolding kernel_semaphore_get_from_queue
give_amount s amount = do
  sem ← load_semaphore s
  let c = given sem amount
  store_semaphore s (some (record sem { count = c }))
  if not (is_negative c) && ltb 0 c && ltb 0 sem.wait_queue.count
      then kernel_semaphore_get_from_queue s
      else done

unfoldable pub kernel_semaphore_give : M (Unit {0})
unfolding find_semaphore_by_id give_amount
kernel_semaphore_give = do
  p ← current
  me ← load_pd p
  s ← find_semaphore_by_id me.request_args.arg0
  if s == null
      then raise_error ErrorCode.object_not_found_err
      else give_amount s me.request_args.arg1
