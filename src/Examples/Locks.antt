-- ===== src/Examples/Locks.antt =====
-- The theorems on mutexes and semaphores, at concrete kernels.
use ez_rtos.PtrList.Walk.{first_object}
use ez_rtos.Base.{ℕ, ◌-◌, null, ◌≤◌, ◌<◌, ◌≡◌, refl, ◌≢◌, true, some, [], ◌∷◌, arith}
use ez_rtos.Queue.Laws.{IsValid}
use ez_rtos.Kernel.Types.{ProcessState, Pd}
use ez_rtos.Kernel.Objects.{Mutex, Semaphore}
use ez_rtos.Kernel.State.{Kernel}
use ez_rtos.Kernel.Run.{◌>>◌, set_cell, ok}
use ez_rtos.Examples.{
  asks, task, mutex_1, semaphore_1, machine, with_mutex, with_semaphore, ptr_queue_of, int_queue_of,
}
use ez_rtos.Mutex.{kernel_lock_mutex, kernel_unlock_mutex}
use ez_rtos.Mutex.Refine.{IsConsistent, LooksLike, IsIn, kernel_lock_mutex-LooksLike}
use ez_rtos.Mutex.Release.{Unlocks, kernel_unlock_mutex-Unlocks}
use ez_rtos.Mutex.Nesting.{free_again, kernel_unlock_mutex-kernel_lock_mutex}
use ez_rtos.Semaphore.{kernel_semaphore_get, kernel_semaphore_give}
use ez_rtos.Semaphore.Get.{kernel_semaphore_get_lem}
use ez_rtos.Semaphore.Give.{kernel_semaphore_give-Serves, kernel_semaphore_give-drains}
use ez_rtos.Semaphore.Serve.{writes, read_next}
use ez_rtos.Semaphore.Waiting.{AreWaiting, demand, Serves}

-- Task 1 asks for object `id`, and task 2 has locked the mutex while task 3 waits for it.
abbrev caller : ℕ → ℕ → Pd
caller id amount = record (task 1 3 ProcessState.running) { request_args = asks id amount }

abbrev held_mutex : ℕ → ℕ → Mutex
held_mutex owner depth = record mutex_1 {
  owner = owner;
  lock_count = depth;
  highest_priority = 2;
  owner_orig_priority = 4;
  wait_queue = ptr_queue_of (300 ∷ []);
  orig_priority = int_queue_of (2 ∷ []);
}

abbrev locking : Kernel
locking =
    with_mutex
      (machine (caller 1 0) (task 2 5 ProcessState.ready) (task 3 2 ProcessState.wait_mutex))
      (held_mutex 2 1)

abbrev unlocking : Kernel
unlocking =
    with_mutex
      (machine (caller 1 0) (task 2 5 ProcessState.ready) (task 3 2 ProcessState.wait_mutex))
      (held_mutex 1 1)

abbrev nesting : Kernel
nesting = machine (caller 1 0) (task 2 5 ProcessState.ready) (task 3 2 ProcessState.ready)

held-IsConsistent :
    (owner depth : ℕ) → owner ≢ 0 → 0 < depth → IsConsistent (held_mutex owner depth)
held-IsConsistent owner depth n h = record {
  waiters = record { counted = refl; small = omega arith };
  ptr_queue = refl;
  priorities = record { counted = refl; small = omega arith };
  int_queue = refl;
  paired = refl;
  free = λ z. absurd (n z);
  held = λ _. h;
}

kernel_lock_mutex-LooksLike_example :
    (k' : Kernel) × (kernel_lock_mutex locking ≡ ok tt k')
    × LooksLike k' 500 (record { holder = 2; depth = 1; line = 300 ∷ 100 ∷ [] })
    × (k'.kernel_request_cswitch ≡ true)
    × IsIn k' 100 ProcessState.wait_mutex
unfolding first_object
kernel_lock_mutex-LooksLike_example =
    kernel_lock_mutex-LooksLike locking (caller 1 0) 500 (held_mutex 2 1) 901 902 [] refl
      (record { ne_zero = omega arith; first = refl; ne_null = omega arith; holds = refl })
      (held-IsConsistent 2 1 (omega arith) (omega arith)) (omega arith) (omega arith) (omega arith)
      refl (omega arith) (omega arith)

kernel_unlock_mutex-Unlocks_example :
    (k' : Kernel) × (kernel_unlock_mutex unlocking ≡ ok tt k')
    × Unlocks unlocking 500 (caller 1 0) (held_mutex 1 1) k'
unfolding first_object
kernel_unlock_mutex-Unlocks_example =
    kernel_unlock_mutex-Unlocks unlocking (caller 1 0) 500 (held_mutex 1 1) refl
      (record { ne_zero = omega arith; first = refl; ne_null = omega arith; holds = refl })
      (held-IsConsistent 1 1 (omega arith) (omega arith)) (omega arith) (omega arith)
      ((task 3 2 ProcessState.wait_mutex, refl, refl, omega arith), omega arith, tt)

kernel_unlock_mutex-kernel_lock_mutex_example :
    (kernel_lock_mutex >> kernel_unlock_mutex) nesting
    ≡ ok tt (record nesting {
      tasks = set_cell nesting.tasks 100 (some (caller 1 0));
      mutexes = set_cell nesting.mutexes 500 (some (free_again (caller 1 0) mutex_1));
    })
unfolding first_object
kernel_unlock_mutex-kernel_lock_mutex_example =
    kernel_unlock_mutex-kernel_lock_mutex nesting (caller 1 0) 500 mutex_1 refl
      (record { ne_zero = omega arith; first = refl; ne_null = omega arith; holds = refl }) refl
      refl refl

-- A semaphore of count 0 that tasks 2 and 3 wait for, one and two of it.
abbrev wanted : Semaphore
wanted = record semaphore_1 { count = 0; wait_queue = ptr_queue_of (200 ∷ 300 ∷ []) }

abbrev waiting_for : ℕ → ℕ → ℕ → Pd
waiting_for pid pri amount = record (task pid pri ProcessState.wait_semaphore) {
  request_args = asks 1 amount;
}

abbrev giving : ℕ → Kernel
giving amount =
    with_semaphore (machine (caller 1 amount) (waiting_for 2 5 1) (waiting_for 3 2 2)) wanted

abbrev getting : Kernel
getting = machine (caller 1 3) (task 2 5 ProcessState.ready) (task 3 2 ProcessState.ready)

kernel_semaphore_get_lem_example :
    kernel_semaphore_get getting
    ≡ ok tt (record getting {
      answers = 902 ∷ [];
      kernel_request_cswitch = true;
      tasks =
          set_cell getting.tasks 100
            (some (record (caller 1 3) { state = ProcessState.wait_semaphore }));
      semaphores =
          set_cell getting.semaphores 600
            (some (record semaphore_1 { wait_queue = ptr_queue_of (100 ∷ []) }));
    })
unfolding first_object
kernel_semaphore_get_lem_example =
    kernel_semaphore_get_lem getting (caller 1 3) 600 semaphore_1 901 (902 ∷ []) refl
      (record { first = refl; ne_null = omega arith; holds = refl })
      (record { counted = refl; small = omega arith }) refl (omega arith) (omega arith) refl
      (omega arith)

waiting-AreWaiting : (amount : ℕ) → AreWaiting (giving amount).tasks.cell (200 ∷ 300 ∷ [])
waiting-AreWaiting amount = (
  (waiting_for 2 5 1, refl, refl, omega arith),
  refl,
  ((waiting_for 3 2 2, refl, refl, omega arith), refl, tt),
)

two_waiters : IsValid wanted.wait_queue
two_waiters = record { counted = refl; small = omega arith }

two_covers_one : demand (giving 2).tasks.cell (200 ∷ []) ≤ 2
unfolding demand
two_covers_one = omega arith

two_covers_no_more : 2 < demand (giving 2).tasks.cell (200 ∷ 300 ∷ [])
unfolding demand
two_covers_no_more = omega arith

kernel_semaphore_give-Serves_example :
    (k' : Kernel) × (kernel_semaphore_give (giving 2) ≡ ok tt k')
    × Serves
        (writes (giving 2) 600 (record wanted { count = 2 }))
        600
        (record wanted { count = 2 })
        (200 ∷ [])
        (300 ∷ [])
        k'
unfolding first_object
kernel_semaphore_give-Serves_example =
    kernel_semaphore_give-Serves (giving 2) (caller 1 2) 600 wanted refl
      (record { first = refl; ne_null = omega arith; holds = refl }) two_waiters (omega arith)
      (omega arith) (200 ∷ []) 300 [] refl (waiting-AreWaiting 2) two_covers_one two_covers_no_more

-- Three covers both tasks, and of what lies at NULL the loop reads on to a task that asks for one.
abbrev giving_three : Kernel
giving_three = record (giving 3) { tasks = set_cell (giving 3).tasks null (some (caller 9 1)) }

three_AreWaiting : AreWaiting giving_three.tasks.cell (200 ∷ 300 ∷ [])
three_AreWaiting = waiting-AreWaiting 3

three_covers_both : demand giving_three.tasks.cell (200 ∷ 300 ∷ []) ≤ 3
unfolding demand
three_covers_both = omega arith

kernel_semaphore_give-drains_example :
    (k' : Kernel) × Serves
      (writes giving_three 600 (record wanted { count = 3 }))
      600
      (record wanted { count = 3 })
      (200 ∷ 300 ∷ [])
      []
      k'
    × (kernel_semaphore_give giving_three
        ≡ read_next (some (caller 9 1)) (3 - demand giving_three.tasks.cell (200 ∷ 300 ∷ [])) k')
unfolding first_object
kernel_semaphore_give-drains_example =
    kernel_semaphore_give-drains giving_three (caller 1 3) 600 wanted refl
      (record { first = refl; ne_null = omega arith; holds = refl }) two_waiters (omega arith)
      (omega arith) 200 (300 ∷ []) refl three_AreWaiting (omega arith, refl) three_covers_both
