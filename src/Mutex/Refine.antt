-- ===== src/Mutex/Refine.antt =====
-- The mutexes as a lock with a holder, a depth and a line of waiters.
use ez_rtos.Base.{
  ℕ, ◌+◌, ◌-◌, ◌<◌, ◌≡◌, refl, ◌≢◌, inl, inr, Bool, true, false, ◌||◌, Option, none, some, List, [],
  ◌∷◌, ◌++◌, arith, ltb, ◌==◌, if◌then◌else◌, ==_refl, Bool-cases, length, length-append, Ptr, null,
  add_word,
}
use ez_rtos.Queue.Laws.{IsValid, enqueue_ptr-ptr, enqueue_int-int}
use ez_rtos.Kernel.Types.{ProcessState, Pd}
use ez_rtos.Kernel.Objects.{Mutex}
use ez_rtos.Kernel.State.{Kernel}
use ez_rtos.Kernel.Run.{ok}
use ez_rtos.Mutex.{raised, inherited, kernel_lock_mutex}
use ez_rtos.Mutex.Lock.{
  Finds, writes_mutex, kernel_lock_mutex_free, kernel_lock_mutex_again, kernel_lock_mutex_wait,
}

-- The holder is a process identifier, 0 when the lock is free.
pub record Lock : Type 0 where
  pub holder : ℕ
  pub depth : ℕ
  pub line : List Ptr

-- A lock as the task `p` with the identifier `pid` takes it, and whether the task has to wait.
abbrev pub spec_lock : ℕ → Ptr → Lock → Lock × Bool
spec_lock pid p l =
    if l.holder == 0
    then (record l { holder = pid; depth = 1 }, false)
    else if l.holder == pid
    then (record l { depth = l.depth + 1 }, false)
    else (record l { line = l.line ++ (p ∷ []) }, true)

-- The first of the line becomes the holder.
abbrev pub pass_on : (Ptr → ℕ) → List Ptr → Lock × Option Ptr
pass_on pid_of [] = (record { holder = 0; depth = 0; line = [] }, none)
pass_on pid_of (p ∷ ps) = (record { holder = pid_of p; depth = 1; line = ps }, some p)

-- A lock as the task with the identifier `pid` gives it up, and the task that is woken.
abbrev pub spec_unlock : (Ptr → ℕ) → ℕ → Lock → Lock × Option Ptr
spec_unlock pid_of pid l =
    if l.holder == pid
    then (if ltb 1 l.depth then (record l { depth = l.depth - 1 }, none) else pass_on pid_of l.line)
    else (l, none)

abbrev pub view : Mutex → Lock
view mut = record { holder = mut.owner; depth = mut.lock_count; line = mut.wait_queue.elements }

-- The two queues hold an entry for each waiter, and a free mutex has no waiters.
pub record IsConsistent (mut : Mutex) : Type 0 where
  pub waiters : IsValid mut.wait_queue
  pub ptr_queue : mut.wait_queue.is_ptr_queue ≡ true
  pub priorities : IsValid mut.orig_priority
  pub int_queue : mut.orig_priority.is_ptr_queue ≡ false
  pub paired : length mut.orig_priority.elements ≡ length mut.wait_queue.elements
  pub free : mut.owner ≡ 0 → (mut.lock_count ≡ 0) × (mut.wait_queue.elements ≡ [])
  pub held : mut.owner ≢ 0 → 0 < mut.lock_count

-- The mutex at `m` is consistent, and looks like `l`.
pub record LooksLike (k : Kernel) (m : Ptr) (l : Lock) : Type 0 where
  pub object : Mutex
  pub holds_object : k.mutexes.cell m ≡ some object
  pub consistent : IsConsistent object
  pub looks : view object ≡ l

-- The state of the task at `p`.
abbrev pub IsIn : Kernel → Ptr → ProcessState → Type 0
IsIn k p s = (d : Pd) × (k.tasks.cell p ≡ some d) × (d.state ≡ s)

module _ (k : Kernel) (me : Pd) (m : Ptr) (mut : Mutex)
    (caller : k.tasks.cell k.current_process ≡ some me) (f : Finds k me.request_args.arg0 m mut)
    (c : IsConsistent mut) where
  abbrev LockOutcome : Type 0
  LockOutcome =
      let out = spec_lock me.pid k.current_process (view mut) in
      (k' : Kernel) × (kernel_lock_mutex k ≡ ok tt k')
      × LooksLike k' m (out.0)
      × (k'.kernel_request_cswitch ≡ (k.kernel_request_cswitch || out.1))
      × IsIn k' k.current_process (if out.1 then ProcessState.wait_mutex else me.state)

  lock_free : mut.owner ≡ 0 → me.pid ≢ 0 → LockOutcome
  lock_free e n = (
    writes_mutex k m (record mut {
      owner = me.pid;
      owner_orig_priority = me.pri;
      highest_priority = me.pri;
      lock_count = add_word mut.lock_count 1;
    }),
    kernel_lock_mutex_free k me m mut caller f e,
    record {
      object = record mut {
        owner = me.pid;
        owner_orig_priority = me.pri;
        highest_priority = me.pri;
        lock_count = add_word mut.lock_count 1;
      };
      holds_object = rw (==_refl m) refl;
      consistent = record {
        waiters = c.waiters;
        ptr_queue = c.ptr_queue;
        priorities = c.priorities;
        int_queue = c.int_queue;
        paired = c.paired;
        free = λ z. absurd (n z);
        held = λ h. ground (arith, (c.free e).0);
      };
      looks = ground (arith, (c.free e).0);
    },
    ground arith,
    (me, caller, ground arith),
  )

  lock_again : mut.owner ≢ 0 → mut.owner ≡ me.pid → mut.lock_count < 65535 → LockOutcome
  lock_again n e w = (
    writes_mutex k m (record mut { lock_count = add_word mut.lock_count 1 }),
    kernel_lock_mutex_again k me m mut caller f n e,
    record {
      object = record mut { lock_count = add_word mut.lock_count 1 };
      holds_object = rw (==_refl m) refl;
      consistent = record {
        waiters = c.waiters;
        ptr_queue = c.ptr_queue;
        priorities = c.priorities;
        int_queue = c.int_queue;
        paired = c.paired;
        free = λ z. absurd (n z);
        held = λ h. ground arith;
      };
      looks = ground arith;
    },
    ground arith,
    (me, caller, ground arith),
  )

  -- The mutex with the caller at the end of both queues.
  abbrev queued : Mutex
  queued = record mut {
    wait_queue = record (mut.wait_queue) {
      elements = mut.wait_queue.elements ++ (k.current_process ∷ []);
      count = mut.wait_queue.count + 1;
    };
    orig_priority = record (mut.orig_priority) {
      elements = mut.orig_priority.elements ++ (me.pri ∷ []);
      count = mut.orig_priority.count + 1;
    };
    highest_priority = raised mut.highest_priority me.pri;
  }

  queued-IsConsistent : mut.owner ≢ 0 → mut.wait_queue.count < 65534 → IsConsistent queued
  queued-IsConsistent n w =
      let e : length (mut.wait_queue.elements ++ (k.current_process ∷ []))
          ≡ length mut.wait_queue.elements + 1 =
        length-append mut.wait_queue.elements (k.current_process ∷ []) in
      let e' : length (mut.orig_priority.elements ++ (me.pri ∷ []))
          ≡ length mut.orig_priority.elements + 1 =
        length-append mut.orig_priority.elements (me.pri ∷ []) in
      let v = c.waiters.counted in
      let v' = c.priorities.counted in
      let q = c.paired in
      record {
        waiters = record { counted = omega arith; small = omega arith };
        ptr_queue = c.ptr_queue;
        priorities = record { counted = omega arith; small = omega arith };
        int_queue = c.int_queue;
        paired = omega arith;
        free = λ z. absurd (n z);
        held = c.held;
      }

  lock_wait :
      (a b : Ptr) (later : List Ptr)
      → mut.owner ≢ 0
      → mut.owner ≢ me.pid
      → mut.wait_queue.count < 65534
      → k.answers ≡ a ∷ b ∷ later
      → a ≢ null
      → b ≢ null
      → LockOutcome
  lock_wait a b later n e w h na nb = (
    _,
    kernel_lock_mutex_wait k me m mut caller f a b later queued.wait_queue queued.orig_priority n e
        h (enqueue_ptr-ptr mut.wait_queue a k.current_process c.waiters c.ptr_queue na)
        (enqueue_int-int mut.orig_priority b me.pri c.priorities c.int_queue nb),
    record {
      object = queued;
      holds_object = rw (==_refl m) refl;
      consistent = queued-IsConsistent n w;
      looks = ground arith;
    },
    ground arith,
    (
      record me { pri = inherited mut.highest_priority me.pri; state = ProcessState.wait_mutex },
      rw (==_refl k.current_process) refl,
      ground arith,
    ),
  )

-- Kernel_Lock_Mutex implements the abstract lock and keeps the mutex consistent: a free mutex is
-- taken by the caller, its holder takes it once more, and any other caller goes to the end of the
-- line, waits, and asks for a switch, while no other call asks for one. The mutex is the one that
-- the search finds, the identifier of the caller is not 0, the lock count and the queue have room
-- for one more, and the two allocations of a waiting caller succeed.
pub kernel_lock_mutex-LooksLike :
    (k : Kernel) (me : Pd) (m : Ptr) (mut : Mutex) (a b : Ptr) (later : List Ptr)
    → k.tasks.cell k.current_process ≡ some me
    → Finds k me.request_args.arg0 m mut
    → IsConsistent mut
    → me.pid ≢ 0
    → mut.lock_count < 65535
    → mut.wait_queue.count < 65534
    → k.answers ≡ a ∷ b ∷ later
    → a ≢ null
    → b ≢ null
    → (k' : Kernel) × (kernel_lock_mutex k ≡ ok tt k')
      × LooksLike k' m ((spec_lock me.pid k.current_process (view mut)).0)
      × (k'.kernel_request_cswitch
          ≡ (k.kernel_request_cswitch || (spec_lock me.pid k.current_process (view mut)).1))
      × IsIn k' k.current_process (
          if (spec_lock me.pid k.current_process (view mut)).1
          then ProcessState.wait_mutex
          else me.state)
kernel_lock_mutex-LooksLike k me m mut a b later caller f c np w w' h na nb =
    elim (Bool-cases (mut.owner == 0)) [
      | inl is_free ↦ lock_free k me m mut caller f c (ground arith) np
      | inr taken ↦ elim (Bool-cases (mut.owner == me.pid)) [
        | inl mine ↦ lock_again k me m mut caller f c (ground arith) (ground arith) w
        | inr other ↦
            lock_wait k me m mut caller f c a b later (ground arith) (ground arith) w' h na nb
      ]
    ]
