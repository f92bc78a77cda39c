-- ===== src/Semaphore/Get.antt =====
-- `Kernel_Semaphore_Get`: who takes and who waits.
use ez_rtos.Base.{
  ℕ, ◌+◌, ◌-◌, ◌<◌, ◌≡◌, ◌≢◌, inl, inr, true, some, List, [], ◌∷◌, ◌++◌, arith, ltb, ◌==◌,
  if◌then◌else◌, Bool-cases, Ptr, null,
}
use ez_rtos.PtrList.{nodes}
use ez_rtos.PtrList.Walk.{first_object}
use ez_rtos.Kernel.Types.{ProcessState, Pd}
use ez_rtos.Kernel.Objects.{Semaphore}
use ez_rtos.Kernel.State.{Kernel}
use ez_rtos.Kernel.Run.{set_cell, update-update, ok}
use ez_rtos.Queue.Laws.{IsValid, enqueue_ptr-ptr}
use ez_rtos.Semaphore.{requested, kernel_semaphore_get}

-- `s` is the semaphore that the search for `id` finds.
pub record Finds (k : Kernel) (id : ℕ) (s : Ptr) (sem : Semaphore) : Type 0 where
  pub first : first_object k.semaphores.cell (λ x. x.id == id) (nodes k.semaphores.list) ≡ some s
  pub ne_null : s ≢ null
  pub holds : k.semaphores.cell s ≡ some sem

-- The caller with the amount that the semaphore makes of its request.
abbrev pub asking : Pd → Semaphore → Pd
asking me sem = record me {
  request_args = record (me.request_args) { arg1 = requested sem me.request_args.arg1 };
}

-- Kernel_Semaphore_Get takes the amount from a semaphore whose count covers it. Else the caller
-- goes to the end of the queue, waits, and asks for a switch, and the count stays. In both cases
-- the request keeps the amount that the semaphore makes of it. The semaphore is the one that the
-- search finds, its queue is a valid pointer queue, the count and the amount are not negative, and
-- the allocation of a waiting caller succeeds.
pub kernel_semaphore_get_lem :
    (k : Kernel) (me : Pd) (s : Ptr) (sem : Semaphore) (a : Ptr) (later : List Ptr)
    → k.tasks.cell k.current_process ≡ some me
    → Finds k me.request_args.arg0 s sem
    → IsValid sem.wait_queue
    → sem.wait_queue.is_ptr_queue ≡ true
    → sem.count < 32768
    → requested sem me.request_args.arg1 < 32768
    → k.answers ≡ a ∷ later
    → a ≢ null
    → kernel_semaphore_get k ≡ (
        if ltb sem.count (requested sem me.request_args.arg1)
        then ok tt (record k {
          answers = later;
          kernel_request_cswitch = true;
          tasks =
              set_cell k.tasks k.current_process
                (some (record (asking me sem) { state = ProcessState.wait_semaphore }));
          semaphores = set_cell k.semaphores s (
              some (record sem {
                wait_queue = record (sem.wait_queue) {
                  elements = sem.wait_queue.elements ++ (k.current_process ∷ []);
                  count = sem.wait_queue.count + 1;
                };
              }));
        })
        else ok tt (record k {
          tasks = set_cell k.tasks k.current_process (some (asking me sem));
          semaphores =
              set_cell k.semaphores s
                (some (record sem { count = sem.count - requested sem me.request_args.arg1 }));
        }))
unfolding kernel_semaphore_get
kernel_semaphore_get_lem k me s sem a later caller f v q w w' h n =
    elim (Bool-cases (ltb sem.count (requested sem me.request_args.arg1))) [
      | inl short ↦ rw short (
          ground (
            arith,
            enqueue_ptr-ptr sem.wait_queue a k.current_process v q n,
            update-update k.tasks.cell k.current_process (some (asking me sem))
                (some (record (asking me sem) { state = ProcessState.wait_semaphore })),
          ))
      | inr enough ↦ rw enough (ground arith)
    ]
