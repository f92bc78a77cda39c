-- ===== src/Mutex/Safety/Frame.antt =====
-- What a lock and an unlock leave of the tasks.
use ez_rtos.Base.{
  ℕ, suc, ◌<◌, ◌≡◌, refl, sym, ap, ◌∙◌, subst, ◌≢◌, inl, inr, false, Option, none, some, List, [],
  ◌∷◌, arith, ltb, ◌==◌, ==_refl, ==_ne, Bool-cases, length, Ptr, null, to_priority,
}
use ez_rtos.Mutex.Refine.{pass_on, spec_unlock, view, IsConsistent}
use ez_rtos.Mutex.Release.{pid_in, AreInLine}
use ez_rtos.Mutex.Unlock.{
  handed_cell, kernel_unlock_mutex_refused, kernel_unlock_mutex_again, kernel_unlock_mutex_free,
  kernel_unlock_mutex_hands_over,
}
use ez_rtos.Mutex.{kernel_lock_mutex, kernel_unlock_mutex}
use ez_rtos.Kernel.Types.{ProcessState, Pd}
use ez_rtos.Kernel.Objects.{Mutex}
use ez_rtos.Kernel.State.{Kernel}
use ez_rtos.Kernel.Run.{Run, update, ok}
use ez_rtos.Queue.Laws.{enqueue_ptr-ptr, enqueue_int-int}
use ez_rtos.Mutex.Lock.{
  Finds, kernel_lock_mutex_free, kernel_lock_mutex_again, kernel_lock_mutex_wait,
}

pub ok_injective : {k k' : Kernel} → ◌≡◌ {A = Run (Unit {0})} (ok tt k) (ok tt k') → k ≡ k'
ok_injective e = cc

-- The tasks of `k'` have the identifiers that those of `k` have, and but for those at `c` and `w` they
-- are the same.
pub record KeepsTasks (cell : Ptr → Option Pd) (c w : Ptr) (cell' : Ptr → Option Pd) : Type 0 where
  pub pids : (p : Ptr) → pid_in cell' p ≡ pid_in cell p
  pub others : (p : Ptr) → p ≢ c → p ≢ w → cell' p ≡ cell p

-- The task that an unlock wakes, or the caller `c` if there is none.
abbrev pub woken_or : Ptr → Option Ptr → Ptr
woken_or c none = c
woken_or c (some p) = p

same-KeepsTasks : (cell : Ptr → Option Pd) (c w : Ptr) → KeepsTasks cell c w cell
same-KeepsTasks cell c w = record { pids = λ p. refl; others = λ p n n'. refl }

swap-KeepsTasks :
    (cell : Ptr → Option Pd) (c w : Ptr) (cell' : Ptr → Option Pd)
    → KeepsTasks cell c w cell'
    → KeepsTasks cell w c cell'
swap-KeepsTasks cell c w cell' h = record { pids = h.pids; others = λ p n n'. h.others p n' n }

trans-KeepsTasks :
    (cell : Ptr → Option Pd) (c w : Ptr) (cell' cell'' : Ptr → Option Pd)
    → KeepsTasks cell c w cell'
    → KeepsTasks cell' c w cell''
    → KeepsTasks cell c w cell''
trans-KeepsTasks cell c w cell' cell'' h h' = record {
  pids = λ p. h'.pids p ∙ h.pids p;
  others = λ p n n'. h'.others p n n' ∙ h.others p n n';
}

update-KeepsTasks :
    (cell : Ptr → Option Pd) (c w : Ptr) (d d' : Pd)
    → cell c ≡ some d
    → d'.pid ≡ d.pid
    → KeepsTasks cell c w (update cell c (some d'))
update-KeepsTasks cell c w d d' h e = record {
  pids = λ p. elim (Bool-cases (c == p)) [
    | inl here ↦
        let same : p ≡ c = ground arith in
        let before : cell p ≡ some d = ap cell same ∙ h in
        let after : update cell c (some d') p ≡ some d' = rw here refl in
        pid_of_same (update cell c (some d') p) (cell p) d' d after before e
    | inr apart ↦
        let after : update cell c (some d') p ≡ cell p = rw apart refl in
        ap (λ (o : Option Pd). elim o [ none ↦ 0 | some x ↦ x.pid ]) after
  ];
  others = λ p n n'. ground arith;
}
  where
    pid_of_same :
        (o o' : Option Pd) (x x' : Pd)
        → o ≡ some x
        → o' ≡ some x'
        → x.pid ≡ x'.pid
        → ◌≡◌ {A = ℕ} (elim o [ none ↦ 0 | some y ↦ y.pid ]) (elim o' [ none ↦ 0 | some y ↦ y.pid ])
    pid_of_same o o' x x' h h' e = rw (h, h') e

handed_cell-KeepsTasks :
    (cell : Ptr → Option Pd) (c : Ptr) (me : Pd) (p : Ptr) (d : Pd) (orig highest : ℕ)
    → cell c ≡ some me
    → cell p ≡ some d
    → p ≢ c
    → KeepsTasks cell c p (handed_cell cell c me p d orig highest)
handed_cell-KeepsTasks cell c me p d orig highest h h' n =
    let me1 : Pd = record me { pri = orig } in
    let d1 : Pd = record d { state = ProcessState.ready; pri = to_priority highest } in
    let cell1 = update cell c (some me1) in
    let cell2 = update cell1 p (some d1) in
    let apart : (c == p) ≡ false = ==_ne c p (λ e. n (sym e)) in
    let apart' : (p == c) ≡ false = ==_ne p c n in
    let at : cell1 p ≡ some d = rw apart h' in
    let back : cell2 c ≡ some me1 = rw (apart', ==_refl c) refl in
    trans-KeepsTasks cell c p cell1 _ (update-KeepsTasks cell c p me me1 h refl) (
      trans-KeepsTasks cell1 c p cell2 _
        (swap-KeepsTasks cell1 p c cell2 (update-KeepsTasks cell1 p c d d1 at refl))
        (update-KeepsTasks cell2 c p me1 _ back refl))

module _ (k k' : Kernel) (me : Pd) (m : Ptr) (mut : Mutex)
    (caller : k.tasks.cell k.current_process ≡ some me) (f : Finds k me.request_args.arg0 m mut)
    (c : IsConsistent mut) where
  pub kernel_lock_mutex-KeepsTasks :
      (a b : Ptr) (later : List Ptr)
      → k.answers ≡ a ∷ b ∷ later
      → a ≢ null
      → b ≢ null
      → kernel_lock_mutex k ≡ ok tt k'
      → KeepsTasks k.tasks.cell k.current_process k.current_process k'.tasks.cell
  kernel_lock_mutex-KeepsTasks a b later h na nb run = elim (Bool-cases (mut.owner == 0)) [
    | inl is_free ↦
        let e =
          ok_injective (sym (kernel_lock_mutex_free k me m mut caller f (ground arith)) ∙ run) in
        subst (λ x. KeepsTasks k.tasks.cell k.current_process k.current_process x.tasks.cell) e
          (same-KeepsTasks k.tasks.cell k.current_process k.current_process)
    | inr taken ↦ elim (Bool-cases (mut.owner == me.pid)) [
      | inl mine ↦
          let e = ok_injective (
            sym (kernel_lock_mutex_again k me m mut caller f (ground arith) (ground arith))
            ∙ run) in
          subst (λ x. KeepsTasks k.tasks.cell k.current_process k.current_process x.tasks.cell) e
            (same-KeepsTasks k.tasks.cell k.current_process k.current_process)
      | inr other ↦
          let e = ok_injective (
            sym (
              kernel_lock_mutex_wait k me m mut caller f a b later _ _ (ground arith) (ground arith)
                h (enqueue_ptr-ptr mut.wait_queue a k.current_process c.waiters c.ptr_queue na)
                (enqueue_int-int mut.orig_priority b me.pri c.priorities c.int_queue nb))
            ∙ run) in
          subst (λ x. KeepsTasks k.tasks.cell k.current_process k.current_process x.tasks.cell) e
            (update-KeepsTasks k.tasks.cell k.current_process k.current_process me _ caller refl)
    ]
  ]

  unlock_last-KeepsTasks :
      (ps : List Ptr) (pris : List ℕ)
      → mut.owner ≡ me.pid
      → mut.lock_count ≡ 1
      → mut.wait_queue.elements ≡ ps
      → mut.orig_priority.elements ≡ pris
      → AreInLine k.tasks.cell k.current_process ps
      → kernel_unlock_mutex k ≡ ok tt k'
      → KeepsTasks k.tasks.cell k.current_process
          (woken_or k.current_process ((pass_on (pid_in k.tasks.cell) ps).1))
          k'.tasks.cell
  unlock_last-KeepsTasks [] pris e h z zp a run =
      let v = c.waiters.counted in
      let n : length mut.wait_queue.elements ≡ 0 = ap length z in
      let same =
        ok_injective (sym (kernel_unlock_mutex_free k me m mut caller f e h (omega arith)) ∙ run) in
      subst (λ x. KeepsTasks k.tasks.cell k.current_process k.current_process x.tasks.cell) same
        (update-KeepsTasks k.tasks.cell k.current_process k.current_process me _ caller refl)
  unlock_last-KeepsTasks (p ∷ ps) [] e h z zp a run =
      let q = c.paired in
      let n : length mut.wait_queue.elements ≡ suc (length ps) = ap length z in
      let n' : length mut.orig_priority.elements ≡ 0 = ap length zp in absurd (omega arith)
  unlock_last-KeepsTasks (p ∷ ps) (pri ∷ pris) e h z zp ((d, ed, st, nz), ne, rest) run =
      let same = ok_injective (
        sym (
          kernel_unlock_mutex_hands_over k me m mut caller f p ps d pri pris e h c.waiters
            c.priorities z zp ed ne st)
        ∙ run) in
      subst (λ x. KeepsTasks k.tasks.cell k.current_process p x.tasks.cell) same
        (handed_cell-KeepsTasks k.tasks.cell k.current_process me p d mut.owner_orig_priority
          mut.highest_priority caller ed ne)

  pub kernel_unlock_mutex-KeepsTasks :
      me.pid ≢ 0
      → mut.lock_count < 65536
      → AreInLine k.tasks.cell k.current_process mut.wait_queue.elements
      → kernel_unlock_mutex k ≡ ok tt k'
      → KeepsTasks k.tasks.cell k.current_process
          (woken_or k.current_process ((spec_unlock (pid_in k.tasks.cell) me.pid (view mut)).1))
          k'.tasks.cell
  kernel_unlock_mutex-KeepsTasks np w a run = elim (Bool-cases (mut.owner == me.pid)) [
    | inr other ↦
        let same =
          ok_injective
            (sym (kernel_unlock_mutex_refused k me m mut caller f (ground arith)) ∙ run) in
        rw other (
          subst (λ x. KeepsTasks k.tasks.cell k.current_process k.current_process x.tasks.cell) same
            (same-KeepsTasks k.tasks.cell k.current_process k.current_process))
    | inl mine ↦ elim (Bool-cases (ltb 1 mut.lock_count)) [
      | inl more ↦
          let same = ok_injective (
            sym (kernel_unlock_mutex_again k me m mut caller f (ground arith) (ground arith) w)
            ∙ run) in
          rw (mine, more)
            (subst (λ x. KeepsTasks k.tasks.cell k.current_process k.current_process x.tasks.cell)
              same (same-KeepsTasks k.tasks.cell k.current_process k.current_process))
      | inr last ↦
          let owned : mut.owner ≡ me.pid = ground arith in
          let locked : 0 < mut.lock_count = c.held (λ z. np (sym owned ∙ z)) in
          rw (mine, last)
            (unlock_last-KeepsTasks mut.wait_queue.elements mut.orig_priority.elements owned
              (ground arith) refl refl a run)
    ]
  ]
