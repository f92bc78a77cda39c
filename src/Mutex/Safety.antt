-- ===== src/Mutex/Safety.antt =====
-- A mutex of mutex.c under any sequence of requests: tasks lock and unlock it in any order, and the
-- kernel does other things between. With it goes a count of the locks that each task has.
pub mod Counts
pub mod Frame
pub mod Line
pub mod Locks
pub mod Passing
pub mod Unlocks
pub mod Invariant
pub mod Exclusion
use ez_rtos.Base.{
  ℕ, ◌+◌, ◌-◌, ◌<◌, ◌≡◌, ◌≢◌, Bool, true, false, not, ◌&&◌, Option, none, some, List, [], ◌∷◌, ◌==◌,
  if◌then◌else◌, Ptr, null,
}
use ez_rtos.Kernel.Types.{ErrorCode, Pd, is_wait_mutex, no_err}
use ez_rtos.Kernel.Objects.{Mutex}
use ez_rtos.Kernel.State.{Kernel}
use ez_rtos.Kernel.Run.{ok}
use ez_rtos.Mutex.{kernel_lock_mutex, kernel_unlock_mutex}
use ez_rtos.Mutex.Lock.{Finds}
use ez_rtos.Mutex.Refine.{IsConsistent}
use ez_rtos.Mutex.Release.{pid_in}

-- `held` counts, for the task at each address, the locks that the task has been given and has not
-- given up, as its calls and its state tell.
pub record System : Type 0 where
  pub kernel : Kernel
  pub held : Ptr → ℕ

abbrev pub waits_in : (Ptr → Option Pd) → Ptr → Bool
waits_in cell p = elim (cell p) [ none ↦ false | some d ↦ is_wait_mutex d.state ]

abbrev pub no_error_told : ErrorCode → Bool
no_error_told ErrorCode.no_err = true
no_error_told _ = false

-- A caller that does not wait after its lock has the mutex once more.
abbrev pub after_lock : Kernel → Kernel → (Ptr → ℕ) → Ptr → ℕ
after_lock k k' held p =
    if p == k.current_process
    then (if waits_in k'.tasks.cell p then held p else held p + 1)
    else held p

-- A caller that gets no error has given the mutex up once, and a task that waited and does so no
-- longer has been given it.
abbrev pub after_unlock : Kernel → Kernel → (Ptr → ℕ) → Ptr → ℕ
after_unlock k k' held p =
    if p == k.current_process
    then (if no_error_told k'.err then held p - 1 else held p)
    else if waits_in k.tasks.cell p && not (waits_in k'.tasks.cell p)
    then 1
    else held p

-- Tasks that wait for a mutex and have an identifier.
abbrev pub AreWaiting : (Ptr → Option Pd) → List Ptr → Type 0
AreWaiting cell [] = Unit {0}
AreWaiting cell (p ∷ ps) = (waits_in cell p ≡ true) × (pid_in cell p ≢ 0) × AreWaiting cell ps

-- No two tasks have the same identifier.
abbrev pub AreUnique : (Ptr → Option Pd) → Type 0
AreUnique cell = (p q : Ptr) → pid_in cell p ≢ 0 → pid_in cell p ≡ pid_in cell q → p ≡ q

-- What the rest of the kernel may do between the requests: it leaves the mutex at `m` alone and the
-- tasks in its line waiting, changes no identifier of a task and gives none twice. Tasks may be
-- created, dispatched, suspended, or wait for other objects.
pub record IsElsewhere (m : Ptr) (k k' : Kernel) : Type 0 where
  pub object : k'.mutexes.cell m ≡ k.mutexes.cell m
  pub line :
      (mut : Mutex)
      → k.mutexes.cell m ≡ some mut
      → AreWaiting k.tasks.cell mut.wait_queue.elements
      → AreWaiting k'.tasks.cell mut.wait_queue.elements
  pub pids : (p : Ptr) → pid_in k.tasks.cell p ≢ 0 → pid_in k'.tasks.cell p ≡ pid_in k.tasks.cell p
  pub unique : AreUnique k'.tasks.cell

-- The running task `me` asks for the mutex `mut` at `m`, which the search finds; it does not wait
-- for a mutex, and no error is pending. The lock count and the queue have room for one more.
pub record Asks (m : Ptr) (k : Kernel) : Type 0 where
  pub me : Pd
  pub mut : Mutex
  pub caller : k.tasks.cell k.current_process ≡ some me
  pub finds : Finds k me.request_args.arg0 m mut
  pub runs : is_wait_mutex me.state ≡ false
  pub has_pid : me.pid ≢ 0
  pub no_error : k.err ≡ ErrorCode.no_err
  pub count_room : mut.lock_count < 65535
  pub queue_room : mut.wait_queue.count < 65534

-- The next two allocations succeed.
pub record HasMemory (k : Kernel) : Type 0 where
  pub first : Ptr
  pub second : Ptr
  pub later : List Ptr
  pub given : k.answers ≡ first ∷ second ∷ later
  pub first_ne : first ≢ null
  pub second_ne : second ≢ null

pub data Step (m : Ptr) : System → System → Type 0 where
  lock :
      {k k' : Kernel} {held : Ptr → ℕ}
      → Asks m k
      → HasMemory k
      → kernel_lock_mutex k ≡ ok tt k'
      → Step m
          (record { kernel = k; held = held })
          (record { kernel = k'; held = after_lock k k' held })
  unlock :
      {k k' : Kernel} {held : Ptr → ℕ}
      → Asks m k
      → kernel_unlock_mutex k ≡ ok tt k'
      → Step m
          (record { kernel = k; held = held })
          (record { kernel = k'; held = after_unlock k k' held })
  other :
      {k k' : Kernel} {held : Ptr → ℕ}
      → IsElsewhere m k k'
      → Step m (record { kernel = k; held = held }) (record { kernel = k'; held = held })

-- At first nobody has the mutex or waits for it.
pub record IsStart (m : Ptr) (k : Kernel) : Type 0 where
  pub mut : Mutex
  pub at : k.mutexes.cell m ≡ some mut
  pub consistent : IsConsistent mut
  pub free : mut.owner ≡ 0
  pub unique : AreUnique k.tasks.cell

pub data Reach (m : Ptr) : System → Type 0 where
  start : {k : Kernel} → IsStart m k → Reach m (record { kernel = k; held = λ _. 0 })
  later : {s t : System} → Reach m s → Step m s t → Reach m t
