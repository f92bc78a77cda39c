-- ===== src/Mutex/Safety/Passing.antt =====
-- What an unlock makes of the line and of the counts.
use ez_rtos.Base.{
  ℕ, ◌-◌, ◌≡◌, refl, sym, ap, ◌∙◌, ◌≢◌, inl, inr, Bool, true, false, not, ◌&&◌, Option, none, some,
  List, [], ◌∷◌, arith, ◌==◌, if◌then◌else◌, Bool-cases, Ptr,
}
use ez_rtos.Kernel.Types.{ProcessState, Pd, is_wait_mutex}
use ez_rtos.Mutex.Refine.{Lock, pass_on}
use ez_rtos.Mutex.Release.{pid_in, AreInLine}
use ez_rtos.Mutex.Safety.{waits_in, AreWaiting}
use ez_rtos.Mutex.Safety.Counts.{some_is}
use ez_rtos.Mutex.Safety.Frame.{KeepsTasks, woken_or}
use ez_rtos.Mutex.Safety.Line.{IsOutside, AreDistinct, AreWaiting-IsOutside, AreWaiting-kept}
use ez_rtos.Mutex.Safety.Locks.{ne-==_false, pid_of_cell, waits_of_cell}

-- The tasks of the line as `Kernel_Unlock_Mutex` needs them.
pub waits-AreInLine :
    (cell : Ptr → Option Pd) (c : Ptr) (ps : List Ptr)
    → AreWaiting cell ps
    → IsOutside c ps
    → AreInLine cell c ps
waits-AreInLine cell c [] a o = tt
waits-AreInLine cell c (p ∷ ps) (w, n, a) (ne, o) =
    (waiter (cell p) w n, (λ e. ne (sym e)), waits-AreInLine cell c ps a o)
  where
    in_wait : (s : ProcessState) → is_wait_mutex s ≡ true → s ≡ ProcessState.wait_mutex
    in_wait s h = ground arith

    waiter :
        (o : Option Pd)
        → waits_of_cell o ≡ true
        → pid_of_cell o ≢ 0
        → (d : Pd) × (o ≡ some d) × (d.state ≡ ProcessState.wait_mutex) × (d.pid ≢ 0)
    waiter none h n = absurd (n refl)
    waiter (some d) h n = (d, refl, in_wait d.state h, n)

-- The task that is woken waited before and does not wait any more.
abbrev pub IsWoken : (Ptr → Option Pd) → (Ptr → Option Pd) → Option Ptr → Type 0
IsWoken cell cell' none = Unit {0}
IsWoken cell cell' (some w) = (waits_in cell w ≡ true) × (waits_in cell' w ≡ false)

abbrev pub Rests : (Ptr → Option Pd) → Option Ptr → Type 0
Rests cell' none = Unit {0}
Rests cell' (some w) = waits_in cell' w ≡ false

module _ (cell cell' : Ptr → Option Pd) (c : Ptr) (runs : waits_in cell c ≡ false) where
  -- What an unlock makes of a line.
  abbrev pub Passes : Lock × Option Ptr → Type 0
  Passes out =
      AreWaiting cell' ((out.0).line) × AreDistinct ((out.0).line) × IsWoken cell cell' (out.1)

  same_line :
      (l : Lock)
      → KeepsTasks cell c c cell'
      → AreWaiting cell l.line
      → AreDistinct l.line
      → Passes (l, none)
  same_line l t a d =
      let out = AreWaiting-IsOutside cell c l.line runs a in
      (AreWaiting-kept cell c c cell' l.line t out out a, d, tt)

  passed_line :
      (ps : List Ptr)
      → KeepsTasks cell c (woken_or c ((pass_on (pid_in cell) ps).1)) cell'
      → AreWaiting cell ps
      → AreDistinct ps
      → Rests cell' ((pass_on (pid_in cell) ps).1)
      → Passes (pass_on (pid_in cell) ps)
  passed_line [] t a d r = (tt, tt, tt)
  passed_line (p ∷ ps) t (w, n, a) (o, d) r =
      (AreWaiting-kept cell c p cell' ps t (AreWaiting-IsOutside cell c ps runs a) o a, d, (w, r))

  -- `spec_unlock` by its two tests.
  abbrev pub unlocked_by : Lock → Bool → Bool → Lock × Option Ptr
  unlocked_by l x y =
      if x
      then (if y then (record l { depth = l.depth - 1 }, none) else pass_on (pid_in cell) l.line)
      else (l, none)

  pub unlocked_line :
      (l : Lock) (x y : Bool)
      → KeepsTasks cell c (woken_or c ((unlocked_by l x y).1)) cell'
      → AreWaiting cell l.line
      → AreDistinct l.line
      → Rests cell' ((unlocked_by l x y).1)
      → Passes (unlocked_by l x y)
  unlocked_line l false y t a d r = same_line l t a d
  unlocked_line l true true t a d r = same_line (record l { depth = l.depth - 1 }) t a d
  unlocked_line l true false t a d r = passed_line l.line t a d r

  -- The holder that an unlock leaves is a task.
  pub unlocked_holder :
      (l : Lock) (x y : Bool)
      → (l.holder ≢ 0 → (q : Ptr) × (pid_in cell q ≡ l.holder))
      → ((unlocked_by l x y).0).holder ≢ 0
      → (q : Ptr) × (pid_in cell q ≡ ((unlocked_by l x y).0).holder)
  unlocked_holder l false y h n = h n
  unlocked_holder l true true h n = h n
  unlocked_holder l true false h n = passed_holder l.line n
    where
      passed_holder :
          (ps : List Ptr)
          → ((pass_on (pid_in cell) ps).0).holder ≢ 0
          → (q : Ptr) × (pid_in cell q ≡ ((pass_on (pid_in cell) ps).0).holder)
      passed_holder [] n = absurd (n refl)
      passed_holder (p ∷ ps) n = (p, refl)

  not_both : {h : ℕ} (x : Bool) → (if x && not x then 1 else h) ≡ h
  not_both true = refl
  not_both false = refl

  -- The counts as the calls tell them.
  pub told_by_unlock :
      (o : Option Ptr) (p h : ℕ) (b : Bool)
      → KeepsTasks cell c (woken_or c o) cell'
      → IsWoken cell cell' o
      → (if p == c
          then (if b then h - 1 else h)
          else if waits_in cell p && not (waits_in cell' p)
          then 1
          else h)
        ≡ (if p == c then (if b then h - 1 else h) else if some_is o p then 1 else h)
  told_by_unlock none p h b t w = elim (Bool-cases (p == c)) [
    | inl here ↦ rw here refl
    | inr apart ↦
        let same = ap waits_of_cell (t.others p (ne-==_false p c apart) (ne-==_false p c apart)) in
        rw (apart, same) (not_both (waits_in cell p))
  ]
  told_by_unlock (some q) p h b t (w, w') = elim (Bool-cases (p == c)) [
    | inl here ↦ rw here refl
    | inr apart ↦ elim (Bool-cases (p == q)) [
      | inl woken ↦
          let e : p ≡ q = ground arith in
          let before : waits_in cell p ≡ true = ap (waits_in cell) e ∙ w in
          let after : waits_in cell' p ≡ false = ap (waits_in cell') e ∙ w' in
          rw (apart, woken, before, after) refl
      | inr other ↦
          let same =
            ap waits_of_cell (t.others p (ne-==_false p c apart) (ne-==_false p q other)) in
          rw (apart, other, same) (not_both (waits_in cell p))
    ]
  ]
