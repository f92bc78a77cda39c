-- ===== src/Semaphore/Give.antt =====
-- `Kernel_Semaphore_Give` with tasks that wait.
use ez_rtos.Kernel.Types.{Pd}
use ez_rtos.Kernel.Objects.{Semaphore}
use ez_rtos.Kernel.State.{Kernel}
use ez_rtos.Kernel.Run.{ok}
use ez_rtos.Base.{
  suc, ◌-◌, ◌≤◌, ◌<◌, ◌≡◌, refl, ap, ◌∙◌, some, List, [], ◌∷◌, ◌++◌, arith, ==_refl, length,
  length-append, Ptr, null,
}
use ez_rtos.Queue.Laws.{IsValid}
use ez_rtos.Semaphore.{kernel_semaphore_get_from_queue, given, kernel_semaphore_give}
use ez_rtos.Semaphore.Get.{Finds}
use ez_rtos.Semaphore.Serve.{writes, IsNoWaiter, read_next}
use ez_rtos.Semaphore.Waiting.{AreWaiting, demand, Serves}
use ez_rtos.Semaphore.Waiters.{
  kernel_semaphore_get_from_queue-Serves, kernel_semaphore_get_from_queue-drains,
}

-- The semaphore with the amount of the caller added.
abbrev pub with_amount : Semaphore → Pd → Semaphore
with_amount sem me = record sem { count = given sem me.request_args.arg1 }

module _ (k : Kernel) (me : Pd) (s : Ptr) (sem : Semaphore)
    (caller : k.tasks.cell k.current_process ≡ some me) (f : Finds k me.request_args.arg0 s sem)
    (v : IsValid sem.wait_queue) (positive : 0 < given sem me.request_args.arg1)
    (small : given sem me.request_args.arg1 < 32768) where
  give_serves :
      0 < sem.wait_queue.count
      → kernel_semaphore_give k
        ≡ kernel_semaphore_get_from_queue s (writes k s (with_amount sem me))
  unfolding kernel_semaphore_give
  give_serves c = ground arith

  -- Kernel_Semaphore_Give, when the new count is positive and covers the requests of the waiting
  -- tasks of `front` and not also that of the next one `w`, serves the tasks of `front`: they
  -- become ready and leave the queue, the count loses what they asked for, and `w` stays at the
  -- head of the queue with the others behind it; no switch is asked for. The semaphore is the one
  -- that the search finds, its queue is valid, the waiting tasks are different, in memory and in
  -- the state of waiting for a semaphore, and their requests and the new count are not negative.
  pub kernel_semaphore_give-Serves :
      (front : List Ptr) (w : Ptr) (back : List Ptr)
      → sem.wait_queue.elements ≡ front ++ (w ∷ back)
      → AreWaiting k.tasks.cell (front ++ (w ∷ back))
      → demand k.tasks.cell front ≤ given sem me.request_args.arg1
      → given sem me.request_args.arg1 < demand k.tasks.cell (front ++ (w ∷ []))
      → (k' : Kernel) × (kernel_semaphore_give k ≡ ok tt k')
        × Serves (writes k s (with_amount sem me)) s (with_amount sem me) front (w ∷ back) k'
  kernel_semaphore_give-Serves front w back e a l d =
      let n : 0 < length (front ++ (w ∷ back)) = omega (arith, length-append front (w ∷ back)) in
      let some_wait : 0 < sem.wait_queue.count = omega (arith, v.counted, ap length e) in
      let (k', run, out) =
        kernel_semaphore_get_from_queue-Serves front w back (writes k s (with_amount sem me)) s
          (with_amount sem me) (rw (==_refl s) refl) v e a small l d in
      (k', give_serves some_wait ∙ run, out)

  -- When the new count is positive and covers all that the waiting tasks ask for, and there is one,
  -- Kernel_Semaphore_Give serves them all: they become ready, the queue is empty, and the count
  -- loses what they asked for. It then goes on to what lies at NULL, the head of the empty queue:
  -- if no task does, the read faults; if one does, the call ends there, with the error of a task
  -- that is not waiting if the count covers the request of that one too. The semaphore is the one
  -- that the search finds, its queue is valid, the waiting tasks are different, in memory and in
  -- the state of waiting for a semaphore, a task at NULL is not in that state, and the requests and
  -- the new count are not negative.
  pub kernel_semaphore_give-drains :
      (w : Ptr) (ws : List Ptr)
      → sem.wait_queue.elements ≡ w ∷ ws
      → AreWaiting k.tasks.cell sem.wait_queue.elements
      → IsNoWaiter (k.tasks.cell null)
      → demand k.tasks.cell sem.wait_queue.elements ≤ given sem me.request_args.arg1
      → (k' : Kernel) × Serves
          (writes k s (with_amount sem me))
          s
          (with_amount sem me)
          sem.wait_queue.elements
          []
          k'
        × (kernel_semaphore_give k
            ≡ read_next
                (k.tasks.cell null)
                (given sem me.request_args.arg1 - demand k.tasks.cell sem.wait_queue.elements)
                k')
  kernel_semaphore_give-drains w ws e a z d =
      let n : length sem.wait_queue.elements ≡ suc (length ws) = ap length e in
      let c = v.counted in
      let (k', out, run) =
        kernel_semaphore_get_from_queue-drains (writes k s (with_amount sem me)) s
          (with_amount sem me) (rw (==_refl s) refl) v a z small d in
      (k', out, give_serves (omega arith) ∙ run)
