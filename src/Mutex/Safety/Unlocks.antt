-- ===== src/Mutex/Safety/Unlocks.antt =====
-- An unlock keeps the invariant.
use ez_rtos.Base.{
  ℕ, ◌-◌, ◌<◌, ◌≡◌, refl, sym, ap, ◌∙◌, subst, ◌≢◌, Bool, true, false, not, ◌&&◌, Option, none,
  some, List, [], ◌∷◌, arith, ◌==◌, if◌then◌else◌, Ptr,
}
use ez_rtos.Kernel.Types.{ErrorCode, Pd, is_wait_mutex}
use ez_rtos.Kernel.Objects.{Mutex}
use ez_rtos.Kernel.State.{Kernel}
use ez_rtos.Kernel.Run.{ok}
use ez_rtos.Mutex.{kernel_unlock_mutex}
use ez_rtos.Mutex.Refine.{Lock, spec_unlock, view, IsConsistent}
use ez_rtos.Mutex.Release.{pid_in, Wakes, kernel_unlock_mutex-Unlocks}
use ez_rtos.Mutex.Safety.{waits_in, no_error_told, after_unlock, AreWaiting, Asks}
use ez_rtos.Mutex.Safety.Counts.{count_in, some_is, HeadIsOther, count_in-spec_unlock}
use ez_rtos.Mutex.Safety.Frame.{KeepsTasks, woken_or, ok_injective, kernel_unlock_mutex-KeepsTasks}
use ez_rtos.Mutex.Safety.Line.{IsOutside, AreDistinct, KeepsTasks-AreUnique, AreWaiting-IsOutside}
use ez_rtos.Mutex.Safety.Invariant.{Inv}
use ez_rtos.Base.{ltb, not, ◌&&◌, ◌<◌}
use ez_rtos.Kernel.Types.{ErrorCode}
use ez_rtos.Mutex.{kernel_unlock_mutex}
use ez_rtos.Mutex.Refine.{spec_unlock}
use ez_rtos.Mutex.Release.{Wakes, kernel_unlock_mutex-Unlocks}
use ez_rtos.Mutex.Safety.{no_error_told, after_unlock}
use ez_rtos.Mutex.Safety.Counts.{HeadIsOther, some_is, count_in-spec_unlock}
use ez_rtos.Mutex.Safety.Frame.{woken_or, kernel_unlock_mutex-KeepsTasks}
use ez_rtos.Mutex.Safety.Line.{IsOutside}
use ez_rtos.Mutex.Safety.Locks.{count_in-kept, pid_of_cell, waits_of_cell}
use ez_rtos.Mutex.Safety.Passing.{
  waits-AreInLine, Rests, unlocked_line, unlocked_holder, told_by_unlock,
}

head-HeadIsOther :
    (cell : Ptr → Option Pd) (c : Ptr) (ps : List Ptr)
    → AreWaiting cell ps
    → IsOutside c ps
    → HeadIsOther (pid_in cell) c ps
head-HeadIsOther cell c [] a o = tt
head-HeadIsOther cell c (p ∷ ps) (w, n, _) (ne, _) = (n, (λ e. ne (sym e)))

module _ (m c : Ptr) (cell cell' : Ptr → Option Pd) (mutexes mutexes' : Ptr → Option Mutex)
    (held : Ptr → ℕ) (mut mut' : Mutex) (i : Inv m cell mutexes held mut) (np : pid_in cell c ≢ 0)
    (runs : waits_in cell c ≡ false) (at : mutexes' m ≡ some mut')
    (consistent : IsConsistent mut') where
  abbrev out : Lock × Option Ptr
  out = spec_unlock (pid_in cell) (pid_in cell c) (view mut)

  -- The state that an unlock leaves.
  unlocked-Inv :
      (b : Bool)
      → KeepsTasks cell c (woken_or c (out.1)) cell'
      → view mut' ≡ out.0
      → Rests cell' (out.1)
      → b ≡ (mut.owner == pid_in cell c)
      → Inv m cell' mutexes'
          (λ p.
            if p == c
            then (if b then held p - 1 else held p)
            else if waits_in cell p && not (waits_in cell' p)
            then 1
            else held p)
          mut'
  unlocked-Inv b t looks r e =
      let (line', distinct', woken) =
        unlocked_line cell cell' c runs (view mut) (mut.owner == pid_in cell c)
          (ltb 1 mut.lock_count) t i.line i.distinct r in
      let o = AreWaiting-IsOutside cell c mut.wait_queue.elements runs i.line in
      record {
        at = at;
        consistent = consistent;
        line = subst (λ (l : Lock). AreWaiting cell' l.line) (sym looks) line';
        distinct = subst (λ (l : Lock). AreDistinct l.line) (sym looks) distinct';
        unique = KeepsTasks-AreUnique cell c (woken_or c (out.1)) cell' t i.unique;
        holder = λ n.
            let owner_is = ap (λ (l : Lock). l.holder) looks in
            let (q, h) =
              unlocked_holder cell cell' c runs (view mut) (mut.owner == pid_in cell c)
                (ltb 1 mut.lock_count) i.holder (λ z. n (owner_is ∙ z)) in
            (q, t.pids q ∙ h ∙ sym owner_is);
        counts = λ p.
            told_by_unlock cell cell' c runs (out.1) p (held p) b t woken
            ∙ ap
                (λ h.
                  if p == c then (if b then h - 1 else h) else if some_is (out.1) p then 1 else h)
                (i.counts p)
            ∙ ap
                (λ x.
                  if p == c
                  then (if x
                      then count_in (pid_in cell) (view mut) p - 1
                      else count_in (pid_in cell) (view mut) p)
                  else if some_is (out.1) p
                  then 1
                  else count_in (pid_in cell) (view mut) p)
                e
            ∙ sym (
                count_in-spec_unlock (pid_in cell) mut.owner mut.lock_count c np i.unique
                  i.consistent.held mut.wait_queue.elements
                  (head-HeadIsOther cell c mut.wait_queue.elements i.line o) p)
            ∙ ap (λ l. count_in (pid_in cell) l p) (sym looks)
            ∙ count_in-kept cell cell' (view mut') p (t.pids p);
      }

Wakes-Rests : (k k' : Kernel) (o : Option Ptr) → Wakes k k' o → Rests k'.tasks.cell o
Wakes-Rests k k' none w = tt
Wakes-Rests k k' (some p) (_, (d, at, st)) = ap waits_of_cell at ∙ ap is_wait_mutex st

err_told :
    (b : Bool) (e : ErrorCode)
    → e ≡ ErrorCode.no_err
    → no_error_told (if b then e else ErrorCode.object_not_found_err) ≡ b
err_told true e h = ap no_error_told h
err_told false e h = refl

pub unlock-Inv :
    (m : Ptr) (k k' : Kernel) (held : Ptr → ℕ) (a : Asks m k)
    → kernel_unlock_mutex k ≡ ok tt k'
    → Inv m k.tasks.cell k.mutexes.cell held a.mut
    → (mut : Mutex) × Inv m k'.tasks.cell k'.mutexes.cell (after_unlock k k' held) mut
unlock-Inv m k k' held a run i =
    let c : Ptr = k.current_process in
    let cell = k.tasks.cell in
    let runs : waits_in cell c ≡ false = ap waits_of_cell a.caller ∙ a.runs in
    let own : a.me.pid ≡ pid_in cell c = sym (ap pid_of_cell a.caller) in
    let in_line =
      waits-AreInLine cell c a.mut.wait_queue.elements i.line
        (AreWaiting-IsOutside cell c a.mut.wait_queue.elements runs i.line) in
    let small : a.mut.lock_count < 65536 = omega (arith, a.count_room) in
    let (k1, run1, (looks1, wakes1, err1, _)) =
      kernel_unlock_mutex-Unlocks k a.me m a.mut a.caller a.finds i.consistent a.has_pid small
        in_line in
    let same : k1 ≡ k' = ok_injective (sym run1 ∙ run) in
    let t =
      kernel_unlock_mutex-KeepsTasks k k' a.me m a.mut a.caller a.finds i.consistent a.has_pid small
        in_line run in
    let rests =
      subst
        (λ (x : Kernel). Rests x.tasks.cell ((spec_unlock (pid_in cell) a.me.pid (view a.mut)).1))
        same (Wakes-Rests k k1 ((spec_unlock (pid_in cell) a.me.pid (view a.mut)).1) wakes1) in
    let told : no_error_told k'.err ≡ (a.mut.owner == a.me.pid) =
      ap (λ (x : Kernel). no_error_told x.err) (sym same)
      ∙ ap no_error_told err1
      ∙ err_told (a.mut.owner == a.me.pid) k.err a.no_error in
    (
      looks1.object,
      unlocked-Inv m c cell k'.tasks.cell k.mutexes.cell k'.mutexes.cell held a.mut looks1.object i
          (λ z. a.has_pid (own ∙ z)) runs
          (ap (λ (x : Kernel). x.mutexes.cell m) (sym same) ∙ looks1.holds_object) looks1.consistent
          (no_error_told k'.err)
          (subst
            (λ x.
              KeepsTasks cell c (woken_or c ((spec_unlock (pid_in cell) x (view a.mut)).1))
                k'.tasks.cell)
            own t)
          (looks1.looks ∙ ap (λ x. (spec_unlock (pid_in cell) x (view a.mut)).0) own)
          (subst (λ x. Rests k'.tasks.cell ((spec_unlock (pid_in cell) x (view a.mut)).1)) own
            rests)
          (told ∙ ap (λ x. a.mut.owner == x) own),
    )
