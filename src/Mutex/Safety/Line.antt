-- ===== src/Mutex/Safety/Line.antt =====
-- The line of the tasks that wait for a mutex.
use ez_rtos.Base.{◌≡◌, sym, ap, ◌∙◌, ◌≢◌, true, false, Option, none, some, List, [], ◌∷◌, ◌++◌, Ptr}
use ez_rtos.Kernel.Types.{Pd, is_wait_mutex}
use ez_rtos.Mutex.Safety.Frame.{KeepsTasks}
use ez_rtos.Mutex.Release.{pid_in}
use ez_rtos.Mutex.Safety.{waits_in, AreWaiting, AreUnique}

-- The task at `p` is not in the line.
abbrev pub IsOutside : Ptr → List Ptr → Type 0
IsOutside p [] = Unit {0}
IsOutside p (q ∷ qs) = (p ≢ q) × IsOutside p qs

-- No task stands in the line twice.
abbrev pub AreDistinct : List Ptr → Type 0
AreDistinct [] = Unit {0}
AreDistinct (p ∷ ps) = IsOutside p ps × AreDistinct ps

-- The identifiers that the tasks keep stay different.
pub KeepsTasks-AreUnique :
    (cell : Ptr → Option Pd) (c w : Ptr) (cell' : Ptr → Option Pd)
    → KeepsTasks cell c w cell'
    → AreUnique cell
    → AreUnique cell'
KeepsTasks-AreUnique cell c w cell' t u p q n e =
    u p q (λ z. n (t.pids p ∙ z)) (sym (t.pids p) ∙ e ∙ t.pids q)

-- Tasks that wait are not `c`, which does not.
pub AreWaiting-IsOutside :
    (cell : Ptr → Option Pd) (c : Ptr) (ps : List Ptr)
    → waits_in cell c ≡ false
    → AreWaiting cell ps
    → IsOutside c ps
AreWaiting-IsOutside cell c [] h a = tt
AreWaiting-IsOutside cell c (p ∷ ps) h (w, _, a) = (
  λ e. true_ne_false (sym w ∙ ap (waits_in cell) (sym e) ∙ h),
  AreWaiting-IsOutside cell c ps h a,
)
  where
    true_ne_false : true ≢ false
    true_ne_false e = cc

-- The line still waits when the tasks of it are as they were.
pub AreWaiting-kept :
    (cell : Ptr → Option Pd) (c w : Ptr) (cell' : Ptr → Option Pd) (ps : List Ptr)
    → KeepsTasks cell c w cell'
    → IsOutside c ps
    → IsOutside w ps
    → AreWaiting cell ps
    → AreWaiting cell' ps
AreWaiting-kept cell c w cell' [] t n n' a = tt
AreWaiting-kept cell c w cell' (p ∷ ps) t (n, ns) (n', ns') (a, b, rest) =
    let same = t.others p (λ e. n (sym e)) (λ e. n' (sym e)) in
    (
      ap (λ (o : Option Pd). elim o [ none ↦ false | some d ↦ is_wait_mutex d.state ]) same ∙ a,
      (λ z. b (sym (t.pids p) ∙ z)),
      AreWaiting-kept cell c w cell' ps t ns ns' rest,
    )

pub AreWaiting-snoc :
    (cell : Ptr → Option Pd) (c : Ptr) (ps : List Ptr)
    → waits_in cell c ≡ true
    → pid_in cell c ≢ 0
    → AreWaiting cell ps
    → AreWaiting cell (ps ++ (c ∷ []))
AreWaiting-snoc cell c [] w n a = (w, n, tt)
AreWaiting-snoc cell c (p ∷ ps) w n (a, b, rest) = (a, b, AreWaiting-snoc cell c ps w n rest)

IsOutside-snoc : (p c : Ptr) (ps : List Ptr) → p ≢ c → IsOutside p ps → IsOutside p (ps ++ (c ∷ []))
IsOutside-snoc p c [] n a = (n, tt)
IsOutside-snoc p c (q ∷ qs) n (m, a) = (m, IsOutside-snoc p c qs n a)

pub AreDistinct-snoc :
    (c : Ptr) (ps : List Ptr) → IsOutside c ps → AreDistinct ps → AreDistinct (ps ++ (c ∷ []))
AreDistinct-snoc c [] n d = (tt, tt)
AreDistinct-snoc c (p ∷ ps) (n, ns) (a, d) =
    (IsOutside-snoc p c ps (λ e. n (sym e)) a, AreDistinct-snoc c ps ns d)
