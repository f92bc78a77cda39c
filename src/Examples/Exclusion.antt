-- ===== src/Examples/Exclusion.antt =====
-- The theorems on sequences of requests for a mutex: task 1 locks it, and task 2 then waits for it.
use ez_rtos.Base.{ℕ, ◌<◌, ◌≡◌, refl, subst, true, Option, some, [], ◌∷◌, arith, Ptr}
use ez_rtos.PtrList.Walk.{first_object}
use ez_rtos.Kernel.Types.{ProcessState, Pd}
use ez_rtos.Kernel.Objects.{Mutex}
use ez_rtos.Kernel.State.{Kernel}
use ez_rtos.Kernel.Run.{set_cell, ok}
use ez_rtos.Queue.{enqueue_ptr, enqueue_int}
use ez_rtos.Mutex.{kernel_lock_mutex}
use ez_rtos.Mutex.Lock.{writes_mutex, kernel_lock_mutex_free, kernel_lock_mutex_wait}
use ez_rtos.Mutex.Refine.{IsConsistent}
use ez_rtos.Mutex.Safety.{
  AreUnique, AreWaiting, IsElsewhere, after_lock, Asks, HasMemory, lock, other, Reach, start, later,
}
use ez_rtos.Mutex.Safety.Exclusion.{mutual_exclusion, waiters_have_holder}
use ez_rtos.Examples.{asks, task, mutex_1, machine, ptr_queue_of, int_queue_of}

abbrev caller : Pd
caller = record (task 1 3 ProcessState.running) { request_args = asks 1 0 }

abbrev at_start : Kernel
at_start = machine caller (task 2 5 ProcessState.ready) (task 3 2 ProcessState.ready)

abbrev owned : Mutex
owned = record mutex_1 { owner = 1; owner_orig_priority = 3; highest_priority = 3; lock_count = 1 }

abbrev locked : Kernel
locked = writes_mutex at_start 500 owned

at_start-AreUnique : AreUnique at_start.tasks.cell
at_start-AreUnique p q n e = ground arith

locked_step : kernel_lock_mutex at_start ≡ ok tt locked
unfolding first_object
locked_step =
    kernel_lock_mutex_free at_start caller 500 mutex_1 refl
      (record { ne_zero = omega arith; first = refl; ne_null = omega arith; holds = refl }) refl

-- Task 2 runs, and asks for the mutex too.
abbrev second : Pd
second = record (task 2 5 ProcessState.running) { request_args = asks 1 0 }

abbrev dispatched : Kernel
dispatched = record (machine (task 1 3 ProcessState.ready) second (task 3 2 ProcessState.ready)) {
  mutexes = locked.mutexes;
  current_process = 200;
}

abbrev waited_for : Mutex
waited_for = record owned {
  wait_queue = ptr_queue_of (200 ∷ []);
  orig_priority = int_queue_of (5 ∷ []);
}

abbrev waiting : Kernel
waiting = record dispatched {
  answers = [];
  kernel_request_cswitch = true;
  mutexes = set_cell dispatched.mutexes 500 (some waited_for);
  tasks =
      set_cell dispatched.tasks 200
        (some (record second { state = ProcessState.wait_mutex; pri = 3 }));
}

some_injective : {x y : Mutex} → ◌≡◌ {A = Option Mutex} (some x) (some y) → x ≡ y
some_injective e = cc

dispatched-IsElsewhere : IsElsewhere 500 locked dispatched
dispatched-IsElsewhere = record {
  object = refl;
  line = λ mut h a.
      subst (λ (x : Mutex). AreWaiting dispatched.tasks.cell x.wait_queue.elements)
        (some_injective h) tt;
  pids = λ p n. ground arith;
  unique = λ p q n e. ground arith;
}

waiting_step : kernel_lock_mutex dispatched ≡ ok tt waiting
unfolding first_object enqueue_ptr enqueue_int
waiting_step =
    kernel_lock_mutex_wait dispatched second 500 owned refl
      (record { ne_zero = omega arith; first = refl; ne_null = omega arith; holds = refl }) 901 902
      [] waited_for.wait_queue waited_for.orig_priority (omega arith) (omega arith) refl refl refl

free_mutex-IsConsistent : IsConsistent mutex_1
free_mutex-IsConsistent = record {
  waiters = record { counted = refl; small = omega arith };
  ptr_queue = refl;
  priorities = record { counted = refl; small = omega arith };
  int_queue = refl;
  paired = refl;
  free = λ _. (refl, refl);
  held = λ n. absurd (n refl);
}

first-Asks : Asks 500 at_start
unfolding first_object
first-Asks = record {
  me = caller;
  mut = mutex_1;
  caller = refl;
  finds = record { ne_zero = omega arith; first = refl; ne_null = omega arith; holds = refl };
  runs = refl;
  has_pid = omega arith;
  no_error = refl;
  count_room = omega arith;
  queue_room = omega arith;
}

second-Asks : Asks 500 dispatched
unfolding first_object
second-Asks = record {
  me = second;
  mut = owned;
  caller = refl;
  finds = record { ne_zero = omega arith; first = refl; ne_null = omega arith; holds = refl };
  runs = refl;
  has_pid = omega arith;
  no_error = refl;
  count_room = omega arith;
  queue_room = omega arith;
}

memory : (k : Kernel) → k.answers ≡ 901 ∷ 902 ∷ [] → HasMemory k
memory k e = record {
  first = 901;
  second = 902;
  later = [];
  given = e;
  first_ne = omega arith;
  second_ne = omega arith;
}

-- The counts after the first lock and after the second.
abbrev held_once : Ptr → ℕ
held_once = after_lock at_start locked (λ _. 0)

abbrev held_on : Ptr → ℕ
held_on = after_lock dispatched waiting held_once

waiting-Reach : Reach 500 (record { kernel = waiting; held = held_on })
waiting-Reach =
    later
      (later
        (later
          (start {k = at_start} (record {
            mut = mutex_1;
            at = refl;
            consistent = free_mutex-IsConsistent;
            free = refl;
            unique = at_start-AreUnique;
          }))
          (lock first-Asks (memory at_start refl) locked_step))
        (other dispatched-IsElsewhere))
      (lock second-Asks (memory dispatched refl) waiting_step)

mutual_exclusion_example : ◌≡◌ {A = ℕ} 100 100
mutual_exclusion_example = mutual_exclusion 500 waiting-Reach 100 100 (omega arith) (omega arith)

waiters_have_holder_example : (q : Ptr) × (0 < held_on q)
waiters_have_holder_example = waiters_have_holder 500 waited_for waiting-Reach refl (λ e. cc)
