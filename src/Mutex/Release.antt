-- ===== src/Mutex/Release.antt =====
-- `Kernel_Unlock_Mutex` and the abstract lock of Refine.antt.
use ez_rtos.Base.{
  ℕ, suc, ◌-◌, ◌<◌, ◌≡◌, refl, sym, ap, ◌∙◌, ◌≢◌, ◌⊎◌, inl, inr, true, Option, none, some, List, [],
  ◌∷◌, arith, ltb, ◌==◌, if◌then◌else◌, ==_refl, ==_ne, Bool-cases, length, Ptr, to_priority,
}
use ez_rtos.Kernel.Types.{ErrorCode, ProcessState, Pd}
use ez_rtos.Kernel.Objects.{Mutex}
use ez_rtos.Kernel.State.{Kernel}
use ez_rtos.Kernel.Run.{ok}
use ez_rtos.Mutex.{kernel_unlock_mutex}
use ez_rtos.Mutex.Lock.{Finds}
use ez_rtos.Mutex.Unlock.{
  handed, handed_cell, kernel_unlock_mutex_refused, kernel_unlock_mutex_again,
  kernel_unlock_mutex_free, kernel_unlock_mutex_hands_over,
}
use ez_rtos.Mutex.Refine.{spec_unlock, view, IsConsistent, LooksLike, IsIn}

abbrev pub pid_in : (Ptr → Option Pd) → Ptr → ℕ
pid_in cell p = elim (cell p) [ none ↦ 0 | some d ↦ d.pid ]

-- The tasks of the line wait for a mutex, and the caller `c` is not one of them.
abbrev pub AreInLine : (Ptr → Option Pd) → Ptr → List Ptr → Type 0
AreInLine cell c [] = Unit
AreInLine cell c (p ∷ ps) =
    ((d : Pd) × (cell p ≡ some d) × (d.state ≡ ProcessState.wait_mutex) × (d.pid ≢ 0))
    × (p ≢ c)
    × AreInLine cell c ps

-- The task that an unlock wakes is ready, and the kernel switches.
abbrev pub Wakes : Kernel → Kernel → Option Ptr → Type 0
Wakes k k' none = k'.kernel_request_cswitch ≡ k.kernel_request_cswitch
Wakes k k' (some p) = (k'.kernel_request_cswitch ≡ true) × IsIn k' p ProcessState.ready

-- A caller that does not hold the mutex gets an error, and all else is as it was.
abbrev Refuses : Kernel → Pd → Mutex → Kernel → Type 0
Refuses k me mut k' =
    (mut.owner ≡ me.pid) ⊎ (k' ≡ record k { err = ErrorCode.object_not_found_err })

abbrev pub Unlocks : Kernel → Ptr → Pd → Mutex → Kernel → Type 0
Unlocks k m me mut k' =
    let out = spec_unlock (pid_in k.tasks.cell) me.pid (view mut) in
    LooksLike k' m (out.0)
    × Wakes k k' (out.1)
    × (k'.err ≡ (if mut.owner == me.pid then k.err else ErrorCode.object_not_found_err))
    × Refuses k me mut k'

module _ (k : Kernel) (me : Pd) (m : Ptr) (mut : Mutex)
    (caller : k.tasks.cell k.current_process ≡ some me) (f : Finds k me.request_args.arg0 m mut)
    (c : IsConsistent mut) where
  abbrev UnlockOutcome : Type 0
  UnlockOutcome = (k' : Kernel) × (kernel_unlock_mutex k ≡ ok tt k') × Unlocks k m me mut k'

  unlock_refused : mut.owner ≢ me.pid → UnlockOutcome
  unlock_refused n = (
    _,
    kernel_unlock_mutex_refused k me m mut caller f n,
    (
      record { object = mut; holds_object = f.holds; consistent = c; looks = ground arith },
      ground arith,
      ground arith,
      inr refl,
    ),
  )

  unlock_again : mut.owner ≡ me.pid → 1 < mut.lock_count → mut.lock_count < 65536 → UnlockOutcome
  unlock_again e h w = (
    _,
    kernel_unlock_mutex_again k me m mut caller f e h w,
    (
      record {
        object = record mut { lock_count = mut.lock_count - 1 };
        holds_object = rw (==_refl m) refl;
        consistent = record {
          waiters = c.waiters;
          ptr_queue = c.ptr_queue;
          priorities = c.priorities;
          int_queue = c.int_queue;
          paired = c.paired;
          free = λ z. absurd (ground (arith, (c.free z).0));
          held = λ _. omega arith;
        };
        looks = ground arith;
      },
      ground arith,
      ground arith,
      inl e,
    ),
  )

  unlock_free :
      mut.owner ≡ me.pid → mut.lock_count ≡ 1 → mut.wait_queue.elements ≡ [] → UnlockOutcome
  unlock_free e h z =
      let v = c.waiters.counted in
      let n : length mut.wait_queue.elements ≡ 0 = ap length z in
      let out : spec_unlock (pid_in k.tasks.cell) me.pid (view mut)
          ≡ (record { holder = 0; depth = 0; line = [] }, none) =
        rw (e, h, z, ==_refl me.pid) refl in
      (
        _,
        kernel_unlock_mutex_free k me m mut caller f e h (omega arith),
        (
          record {
            object = record mut { lock_count = 0; owner = 0 };
            holds_object = rw (==_refl m) refl;
            consistent = record {
              waiters = c.waiters;
              ptr_queue = c.ptr_queue;
              priorities = c.priorities;
              int_queue = c.int_queue;
              paired = c.paired;
              free = λ _. (refl, z);
              held = λ n. absurd (n refl);
            };
            looks = rw (out, z) refl;
          },
          rw out refl,
          ground arith,
          inl e,
        ),
      )

  unlock_hands_over :
      (p : Ptr) (ps : List Ptr) (pri : ℕ) (pris : List ℕ)
      → mut.owner ≡ me.pid
      → mut.lock_count ≡ 1
      → mut.wait_queue.elements ≡ p ∷ ps
      → mut.orig_priority.elements ≡ pri ∷ pris
      → AreInLine k.tasks.cell k.current_process (p ∷ ps)
      → UnlockOutcome
  unlock_hands_over p ps pri pris e h z zp ((d, ed, st, nz), ne, rest) =
      let v = c.waiters.counted in
      let v' = c.priorities.counted in
      let q = c.paired in
      let n : length mut.wait_queue.elements ≡ suc (length ps) = ap length z in
      let out : spec_unlock (pid_in k.tasks.cell) me.pid (view mut)
          ≡ (record { holder = pid_in k.tasks.cell p; depth = 1; line = ps }, some p) =
        rw (e, h, z, ==_refl me.pid) refl in
      let pid_p : pid_in k.tasks.cell p ≡ d.pid = ground (arith, ed) in
      let woken_at : handed_cell k.tasks.cell k.current_process me p d mut.owner_orig_priority
            mut.highest_priority p
          ≡ some (record d { state = ProcessState.ready; pri = to_priority mut.highest_priority }) =
        ground (arith, ==_refl p, ==_ne k.current_process p (λ y. ne (sym y))) in
      let n' : length mut.orig_priority.elements ≡ suc (length pris) = ap length zp in
      (
        _,
        kernel_unlock_mutex_hands_over k me m mut caller f p ps d pri pris e h c.waiters
            c.priorities z zp ed ne st,
        (
          record {
            object = handed mut d pri ps pris;
            holds_object = rw (==_refl m) refl;
            consistent = record {
              waiters = record { counted = omega arith; small = omega (arith, c.waiters.small) };
              ptr_queue = c.ptr_queue;
              priorities = record {
                counted = omega arith;
                small = omega (arith, c.priorities.small);
              };
              int_queue = c.int_queue;
              paired = omega arith;
              free = λ y. absurd (nz y);
              held = λ _. omega arith;
            };
            looks = rw out (ap (λ x. record { holder = x; depth = 1; line = ps }) (sym pid_p));
          },
          rw out (
            refl,
            (
              record d { state = ProcessState.ready; pri = to_priority mut.highest_priority },
              woken_at,
              refl,
            ),
          ),
          ground arith,
          inl e,
        ),
      )

  unlock_last :
      (ps : List Ptr) (pris : List ℕ)
      → mut.owner ≡ me.pid
      → mut.lock_count ≡ 1
      → mut.wait_queue.elements ≡ ps
      → mut.orig_priority.elements ≡ pris
      → AreInLine k.tasks.cell k.current_process ps
      → UnlockOutcome
  unlock_last [] pris e h z zp a = unlock_free e h z
  unlock_last (p ∷ ps) [] e h z zp a =
      let q = c.paired in
      let n : length mut.wait_queue.elements ≡ suc (length ps) = ap length z in
      let n' : length mut.orig_priority.elements ≡ 0 = ap length zp in absurd (omega arith)
  unlock_last (p ∷ ps) (pri ∷ pris) e h z zp a = unlock_hands_over p ps pri pris e h z zp a

-- Kernel_Unlock_Mutex implements the abstract lock and keeps the mutex consistent: a caller that
-- does not hold the mutex gets an error, and nothing else of the kernel changes; the holder lowers
-- its depth; its last unlock frees the mutex, or hands it to the first of the line, which is made
-- ready while the kernel switches. The mutex is the one that the search finds, it is consistent,
-- the identifier of the caller is not 0, the lock count is a word, and the tasks in the line are in
-- memory, are not the caller, have identifiers other than 0 and still wait for a mutex.
pub kernel_unlock_mutex-Unlocks :
    (k : Kernel) (me : Pd) (m : Ptr) (mut : Mutex)
    → k.tasks.cell k.current_process ≡ some me
    → Finds k me.request_args.arg0 m mut
    → IsConsistent mut
    → me.pid ≢ 0
    → mut.lock_count < 65536
    → AreInLine k.tasks.cell k.current_process mut.wait_queue.elements
    → (k' : Kernel) × (kernel_unlock_mutex k ≡ ok tt k') × Unlocks k m me mut k'
kernel_unlock_mutex-Unlocks k me m mut caller f c np w a = elim (Bool-cases (mut.owner == me.pid)) [
  | inr other ↦ unlock_refused k me m mut caller f c (ground arith)
  | inl mine ↦ elim (Bool-cases (ltb 1 mut.lock_count)) [
    | inl more ↦ unlock_again k me m mut caller f c (ground arith) (ground arith) w
    | inr last ↦
        let owned : mut.owner ≡ me.pid = ground arith in
        let locked : 0 < mut.lock_count = c.held (λ z. np (sym owned ∙ z)) in
        unlock_last k me m mut caller f c mut.wait_queue.elements mut.orig_priority.elements owned
          (ground arith) refl refl a
  ]
]
