-- ===== src/Mutex/Safety/Locks.antt =====
-- A lock keeps the invariant.
use ez_rtos.Base.{
  ℕ, ◌+◌, ◌≡◌, refl, sym, ap, ◌∙◌, subst, ◌≢◌, inl, inr, Bool, true, false, Option, none, some,
  List, [], ◌∷◌, ◌++◌, arith, ◌==◌, if◌then◌else◌, Bool-cases, Ptr,
}
use ez_rtos.Kernel.Types.{ProcessState, Pd, is_wait_mutex}
use ez_rtos.Kernel.Objects.{Mutex}
use ez_rtos.Kernel.State.{Kernel}
use ez_rtos.Kernel.Run.{ok}
use ez_rtos.Mutex.{kernel_lock_mutex}
use ez_rtos.Mutex.Refine.{Lock, spec_lock, view, IsConsistent, kernel_lock_mutex-LooksLike}
use ez_rtos.Mutex.Release.{pid_in}
use ez_rtos.Mutex.Safety.{waits_in, after_lock, AreWaiting, Asks, HasMemory}
use ez_rtos.Mutex.Safety.Counts.{count_in, count_in-spec_lock}
use ez_rtos.Mutex.Safety.Frame.{KeepsTasks, ok_injective, kernel_lock_mutex-KeepsTasks}
use ez_rtos.Mutex.Safety.Line.{
  AreDistinct, KeepsTasks-AreUnique, AreWaiting-IsOutside, AreWaiting-kept, AreWaiting-snoc,
  AreDistinct-snoc,
}
use ez_rtos.Mutex.Safety.Invariant.{Inv}

module _ (pid : ℕ) (c : Ptr) (l : Lock) where
  spec_lock-line :
      ((spec_lock pid c l).0).line ≡ (if (spec_lock pid c l).1 then l.line ++ (c ∷ []) else l.line)
  spec_lock-line = ground arith

  spec_lock-holder : ((spec_lock pid c l).0).holder ≡ (if l.holder == 0 then pid else l.holder)
  spec_lock-holder = ground arith

module _ (cell cell' : Ptr → Option Pd) (c : Ptr) (ps : List Ptr) (t : KeepsTasks cell c c cell')
    (runs : waits_in cell c ≡ false) (np : pid_in cell c ≢ 0) (a : AreWaiting cell ps) where
  line_after :
      (b : Bool) → waits_in cell' c ≡ b → AreWaiting cell' (if b then ps ++ (c ∷ []) else ps)
  line_after true w =
      let out = AreWaiting-IsOutside cell c ps runs a in
      AreWaiting-snoc cell' c ps w (λ z. np (sym (t.pids c) ∙ z))
        (AreWaiting-kept cell c c cell' ps t out out a)
  line_after false w =
      let out = AreWaiting-IsOutside cell c ps runs a in
      AreWaiting-kept cell c c cell' ps t out out a

  distinct_after : (b : Bool) → AreDistinct ps → AreDistinct (if b then ps ++ (c ∷ []) else ps)
  distinct_after true d = AreDistinct-snoc c ps (AreWaiting-IsOutside cell c ps runs a) d
  distinct_after false d = d

pub ne-==_false : (a b : ℕ) → (a == b) ≡ false → a ≢ b
ne-==_false a b h e = ground arith

-- The counts as the calls tell them.
told_by_lock :
    (p c h : ℕ) (w : Ptr → Bool) (b : Bool)
    → w c ≡ b
    → (if p == c then (if w p then h else h + 1) else h)
      ≡ (if p == c then (if b then h else h + 1) else h)
told_by_lock p c h w b e = let at : p ≡ c → w p ≡ b = λ x. ap w x ∙ e in ground arith

-- The counts with the identifiers after the call.
pub count_in-kept :
    (cell cell' : Ptr → Option Pd) (l : Lock) (p : Ptr)
    → pid_in cell' p ≡ pid_in cell p
    → count_in (pid_in cell) l p ≡ count_in (pid_in cell') l p
count_in-kept cell cell' l p e = ap (λ x. if x == l.holder then l.depth else 0) (sym e)

module _ (m c : Ptr) (cell cell' : Ptr → Option Pd) (mutexes mutexes' : Ptr → Option Mutex)
    (held : Ptr → ℕ) (mut mut' : Mutex) (i : Inv m cell mutexes held mut) (np : pid_in cell c ≢ 0)
    (runs : waits_in cell c ≡ false) (at : mutexes' m ≡ some mut')
    (consistent : IsConsistent mut') where
  -- The state that a lock leaves.
  locked-Inv :
      KeepsTasks cell c c cell'
      → view mut' ≡ (spec_lock (pid_in cell c) c (view mut)).0
      → waits_in cell' c ≡ (spec_lock (pid_in cell c) c (view mut)).1
      → Inv m cell' mutexes'
          (λ p. if p == c then (if waits_in cell' p then held p else held p + 1) else held p)
          mut'
  locked-Inv t looks w =
      let waiting = (spec_lock (pid_in cell c) c (view mut)).1 in
      let line_is = ap (λ l. l.line) looks ∙ spec_lock-line (pid_in cell c) c (view mut) in
      let holder_is = ap (λ l. l.holder) looks ∙ spec_lock-holder (pid_in cell c) c (view mut) in
      record {
        at = at;
        consistent = consistent;
        line =
            subst (λ ps. AreWaiting cell' ps) (sym line_is)
              (line_after cell cell' c mut.wait_queue.elements t runs np i.line waiting w);
        distinct =
            subst (λ ps. AreDistinct ps) (sym line_is)
              (distinct_after cell cell' c mut.wait_queue.elements t runs np i.line waiting
                i.distinct);
        unique = KeepsTasks-AreUnique cell c c cell' t i.unique;
        holder = λ n. elim (Bool-cases (mut.owner == 0)) [
          | inl free ↦ (c, t.pids c ∙ sym (holder_is ∙ rw free refl))
          | inr taken ↦
              let (q, h) = i.holder (ne-==_false mut.owner 0 taken) in
              (q, t.pids q ∙ h ∙ sym (holder_is ∙ rw taken refl))
        ];
        counts = λ p.
            told_by_lock p c (held p) (waits_in cell') waiting w
            ∙ ap (λ h. if p == c then (if waiting then h else h + 1) else h) (i.counts p)
            ∙ sym (
                count_in-spec_lock (pid_in cell) (view mut) c np
                  (λ q e. i.unique q c (λ z. np (sym e ∙ z)) e) (λ z. (i.consistent.free z).0) p)
            ∙ ap (λ l. count_in (pid_in cell) l p) (sym looks)
            ∙ count_in-kept cell cell' (view mut') p (t.pids p);
      }

abbrev pub pid_of_cell : Option Pd → ℕ
pid_of_cell o = elim o [ none ↦ 0 | some d ↦ d.pid ]

abbrev pub waits_of_cell : Option Pd → Bool
waits_of_cell o = elim o [ none ↦ false | some d ↦ is_wait_mutex d.state ]

lock_state :
    (b : Bool) (s : ProcessState)
    → is_wait_mutex s ≡ false
    → is_wait_mutex (if b then ProcessState.wait_mutex else s) ≡ b
lock_state true s h = refl
lock_state false s h = h

pub lock-Inv :
    (m : Ptr) (k k' : Kernel) (held : Ptr → ℕ) (a : Asks m k)
    → HasMemory k
    → kernel_lock_mutex k ≡ ok tt k'
    → Inv m k.tasks.cell k.mutexes.cell held a.mut
    → (mut : Mutex) × Inv m k'.tasks.cell k'.mutexes.cell (after_lock k k' held) mut
lock-Inv m k k' held a h run i =
    let (k1, run1, looks1, _, in1) =
      kernel_lock_mutex-LooksLike k a.me m a.mut h.first h.second h.later a.caller a.finds
        i.consistent a.has_pid a.count_room a.queue_room h.given h.first_ne h.second_ne in
    let same : k1 ≡ k' = ok_injective (sym run1 ∙ run) in
    let c : Ptr = k.current_process in
    let cell = k.tasks.cell in
    let own : a.me.pid ≡ pid_in cell c = sym (ap pid_of_cell a.caller) in
    let t =
      kernel_lock_mutex-KeepsTasks k k' a.me m a.mut a.caller a.finds i.consistent h.first h.second
        h.later h.given h.first_ne h.second_ne run in
    let (d, at, st) = in1 in
    let waits : waits_in k'.tasks.cell c ≡ (spec_lock a.me.pid c (view a.mut)).1 =
      ap (λ (x : Kernel). waits_in x.tasks.cell c) (sym same)
      ∙ ap waits_of_cell at
      ∙ ap is_wait_mutex st
      ∙ lock_state ((spec_lock a.me.pid c (view a.mut)).1) a.me.state a.runs in
    (
      looks1.object,
      locked-Inv m c cell k'.tasks.cell k.mutexes.cell k'.mutexes.cell held a.mut looks1.object i
          (λ z. a.has_pid (own ∙ z)) (ap waits_of_cell a.caller ∙ a.runs)
          (ap (λ (x : Kernel). x.mutexes.cell m) (sym same) ∙ looks1.holds_object) looks1.consistent
          t (looks1.looks ∙ ap (λ x. (spec_lock x c (view a.mut)).0) own)
          (waits ∙ ap (λ x. (spec_lock x c (view a.mut)).1) own),
    )
