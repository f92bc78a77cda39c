-- ===== src/Mutex/Safety/Exclusion.antt =====
-- Mutual exclusion.
use ez_rtos.Base.{
  [], ap, Option, some, subst, if◌then◌else◌, ℕ, ◌<◌, ◌≡◌, sym, ◌∙◌, ◌≢◌, arith, ◌==◌, Ptr,
}
use ez_rtos.Kernel.Objects.{Mutex}
use ez_rtos.Kernel.State.{Kernel}
use ez_rtos.Mutex.Release.{pid_in}
use ez_rtos.Mutex.Safety.{System, Step, lock, unlock, other, Reach, start, later, Asks}
use ez_rtos.Mutex.Safety.Invariant.{Inv, start-Inv, other-Inv}
use ez_rtos.Mutex.Safety.Locks.{lock-Inv}
use ez_rtos.Mutex.Safety.Unlocks.{unlock-Inv}

abbrev pub Holds : Ptr → System → Type 0
Holds m s = (mut : Mutex) × Inv m s.kernel.tasks.cell s.kernel.mutexes.cell s.held mut

some_injective : {x y : Mutex} → ◌≡◌ {A = Option Mutex} (some x) (some y) → x ≡ y
some_injective e = cc

-- A task that has the mutex is its owner.
counted-owner :
    (pid owner n h : ℕ)
    → (owner ≡ 0 → n ≡ 0)
    → h ≡ (if pid == owner then n else 0)
    → 0 < h
    → (pid ≡ owner) × (pid ≢ 0) × (h ≡ n)
counted-owner pid owner n h free e l = (ground arith, (λ z. ground arith), ground arith)

owner-counted :
    (pid owner n h : ℕ) → pid ≡ owner → h ≡ (if pid == owner then n else 0) → 0 < n → 0 < h
owner-counted pid owner n h e c l = ground arith

-- The mutex that is asked for is the one of the invariant.
asked-Inv :
    (m : Ptr) (k : Kernel) (held : Ptr → ℕ) (a : Asks m k) (mut : Mutex)
    → Inv m k.tasks.cell k.mutexes.cell held mut
    → Inv m k.tasks.cell k.mutexes.cell held a.mut
asked-Inv m k held a mut i =
    let same : mut ≡ a.mut = some_injective (sym i.at ∙ a.finds.holds) in
    subst (λ x. Inv m k.tasks.cell k.mutexes.cell held x) same i

pub Step-Inv : (m : Ptr) {s t : System} → Step m s t → Holds m s → Holds m t
Step-Inv m (lock {k} {k'} {held} a h run) (mut, i) =
    lock-Inv m k k' held a h run (asked-Inv m k held a mut i)
Step-Inv m (unlock {k} {k'} {held} a run) (mut, i) =
    unlock-Inv m k k' held a run (asked-Inv m k held a mut i)
Step-Inv m (other {k} {k'} {held} e) (mut, i) = (mut, other-Inv m k k' held mut e i)

pub Reach-Inv : (m : Ptr) {s : System} → Reach m s → Holds m s
Reach-Inv m (start {k} s) = (s.mut, start-Inv m k s)
Reach-Inv m (later r st) = Step-Inv m st (Reach-Inv m r)

-- No two tasks have a mutex at the same time, after any sequence of locks and unlocks of it by
-- tasks that do not wait for a mutex, with anything else that the kernel does between as long as it
-- leaves the mutex alone and its waiting tasks waiting and no identifier of a task changes or is
-- given twice. A task has the mutex from a lock after which it does not wait, or from the unlock
-- that wakes it, until it has given up each of its locks without an error. The mutex starts free;
-- the lock count and the queue have room, and the two allocations of a lock succeed.
pub mutual_exclusion :
    (m : Ptr) {s : System} → Reach m s → (p q : Ptr) → 0 < s.held p → 0 < s.held q → p ≡ q
mutual_exclusion m {s} r p q hp hq =
    let (mut, i) = Reach-Inv m r in
    let cell = s.kernel.tasks.cell in
    let free = λ (z : mut.owner ≡ 0). (i.consistent.free z).0 in
    let (own_p, np, _) =
      counted-owner (pid_in cell p) mut.owner mut.lock_count (s.held p) free (i.counts p) hp in
    let (own_q, _, _) =
      counted-owner (pid_in cell q) mut.owner mut.lock_count (s.held q) free (i.counts q) hq in
    i.unique p q np (own_p ∙ sym own_q)

-- After any such sequence of locks and unlocks, no task waits for a mutex that nobody has: if the
-- queue of the mutex is not empty, then some task has the mutex, by the same count of the locks
-- that it has been given and has not given up.
pub waiters_have_holder :
    (m : Ptr) {s : System} (mut : Mutex)
    → Reach m s
    → s.kernel.mutexes.cell m ≡ some mut
    → mut.wait_queue.elements ≢ []
    → (q : Ptr) × (0 < s.held q)
waiters_have_holder m {s} mut r at waited =
    let (mut', i) = Reach-Inv m r in
    let same : mut' ≡ mut = some_injective (sym i.at ∙ at) in
    let owned : mut'.owner ≢ 0 = λ z.
      waited (ap (λ (x : Mutex). x.wait_queue.elements) (sym same) ∙ (i.consistent.free z).1) in
    let (q, h) = i.holder owned in
    let count = i.counts q in
    let positive = i.consistent.held owned in
    (
      q,
      owner-counted (pid_in s.kernel.tasks.cell q) mut'.owner mut'.lock_count (s.held q) h count
          positive,
    )
