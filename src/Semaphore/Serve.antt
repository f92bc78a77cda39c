-- ===== src/Semaphore/Serve.antt =====
-- `Kernel_Semaphore_Get_From_Queue`: which waiters a semaphore that got counts serves.
use ez_rtos.Base.{
  ℕ, suc, ◌-◌, ◌≤◌, ◌<◌, ◌≡◌, refl, false, Option, none, some, List, [], ◌∷◌, arith, ltb,
  if◌then◌else◌, Ptr, null,
}
use ez_rtos.Kernel.Types.{ErrorCode, ProcessState, Pd, is_wait_semaphore}
use ez_rtos.Kernel.Objects.{Semaphore}
use ez_rtos.Kernel.State.{Kernel}
use ez_rtos.Kernel.Run.{M, set_cell, raise_error, ok, fault}
use ez_rtos.Queue.Laws.{
  IsValid, dequeue_ptr-cons, dequeue_int-eq-dequeue_ptr, queue_peek_ptr-cons, queue_peek_ptr-nil,
}
use ez_rtos.Semaphore.{serve_head, get_from_queue_loop}

abbrev pub writes : Kernel → Ptr → Semaphore → Kernel
writes k s sem = record k { semaphores = set_cell k.semaphores s (some sem) }

-- The kernel after a round that serves the waiter `w`: its amount is taken, it is ready, and it has
-- left the queue.
abbrev pub served : Kernel → Ptr → Semaphore → Ptr → Pd → List Ptr → Kernel
served k s sem w d ws = record k {
  semaphores = set_cell k.semaphores s (
      some (record sem {
        count = sem.count - d.request_args.arg1;
        wait_queue = record (sem.wait_queue) { elements = ws; count = sem.wait_queue.count - 1 };
      }));
  tasks = set_cell k.tasks w (some (record d { state = ProcessState.ready }));
}

-- A task, if it is one, that does not wait for a semaphore, and whose request is not negative.
abbrev pub IsNoWaiter : Option Pd → Type 0
IsNoWaiter none = Unit
IsNoWaiter (some h) = (h.request_args.arg1 < 32768) × (is_wait_semaphore h.state ≡ false)

-- How the loop ends when it reads `next`, which does not wait for a semaphore, with `count` left.
abbrev pub read_next : Option Pd → ℕ → M (Unit {0})
read_next none count k = fault
read_next (some h) count k =
    if ltb count h.request_args.arg1
    then ok tt k
    else raise_error ErrorCode.unprocessable_task_state_err k

module _ (n : ℕ) (k : Kernel) (s : Ptr) (sem : Semaphore)
    (here_sem : k.semaphores.cell s ≡ some sem) (valid : IsValid sem.wait_queue) where
  -- A round that serves the head of the queue.
  pub get_from_queue_loop-served :
      (w : Ptr) (ws : List Ptr) (d : Pd)
      → sem.wait_queue.elements ≡ w ∷ ws
      → k.tasks.cell w ≡ some d
      → d.state ≡ ProcessState.wait_semaphore
      → sem.count < 32768
      → d.request_args.arg1 ≤ sem.count
      → get_from_queue_loop (suc n) s k ≡ get_from_queue_loop n s (served k s sem w d ws)
  unfolding get_from_queue_loop serve_head
  get_from_queue_loop-served w ws d q e st l h = ground (
    arith,
    queue_peek_ptr-cons sem.wait_queue w ws valid q,
    dequeue_int-eq-dequeue_ptr sem.wait_queue,
    dequeue_ptr-cons sem.wait_queue w ws valid q,
  )

  -- The loop ends at a head that asks for more than is left.
  pub get_from_queue_loop-short :
      (w : Ptr) (ws : List Ptr) (d : Pd)
      → sem.wait_queue.elements ≡ w ∷ ws
      → k.tasks.cell w ≡ some d
      → sem.count < 32768
      → d.request_args.arg1 < 32768
      → sem.count < d.request_args.arg1
      → get_from_queue_loop (suc n) s k ≡ ok tt k
  unfolding get_from_queue_loop
  get_from_queue_loop-short w ws d q e l l' h =
      ground (arith, queue_peek_ptr-cons sem.wait_queue w ws valid q)

  empty_reads :
      (next : Option Pd)
      → sem.wait_queue.elements ≡ []
      → sem.count < 32768
      → k.tasks.cell null ≡ next
      → IsNoWaiter next
      → get_from_queue_loop (suc n) s k ≡ read_next next sem.count k
  unfolding get_from_queue_loop
  empty_reads none q l z w = ground (arith, queue_peek_ptr-nil sem.wait_queue q)
  empty_reads (some h) q l z w = ground (arith, queue_peek_ptr-nil sem.wait_queue q)

  -- With the queue empty the head is NULL, and the test of the loop reads what lies there.
  pub get_from_queue_loop-empty :
      sem.wait_queue.elements ≡ []
      → sem.count < 32768
      → IsNoWaiter (k.tasks.cell null)
      → get_from_queue_loop (suc n) s k ≡ read_next (k.tasks.cell null) sem.count k
  get_from_queue_loop-empty q l w = empty_reads (k.tasks.cell null) q l refl w
