-- ===== src/Semaphore/Waiting.antt =====
-- The tasks that wait in a semaphore's queue, and what a run of Get_From_Queue does to them.
use ez_rtos.Base.{
  ℕ, suc, ◌+◌, ◌-◌, ◌<◌, ◌≡◌, refl, ap, Bool, false, ◌||◌, Option, none, some, List, [], ◌∷◌, ◌++◌,
  arith, ◌==◌, if◌then◌else◌, length, Ptr,
}
use ez_rtos.Queue.{Queue}
use ez_rtos.Kernel.Types.{ProcessState, Pd}
use ez_rtos.Kernel.Objects.{Semaphore}
use ez_rtos.Kernel.State.{Kernel}
use ez_rtos.Kernel.Run.{update}
use ez_rtos.Queue.Laws.{IsValid}
use mathlib.Core.Option

abbrev pub has : List Ptr → Ptr → Bool
has [] p = false
has (w ∷ ws) p = (w == p) || has ws p

-- Different tasks, all in memory, and waiting for a semaphore.
abbrev pub AreWaiting : (Ptr → Option Pd) → List Ptr → Type 0
AreWaiting cell [] = Unit
AreWaiting cell (w ∷ ws) =
    ((d : Pd) × (cell w ≡ some d)
      × (d.state ≡ ProcessState.wait_semaphore)
      × (d.request_args.arg1 < 32768))
    × (has ws w ≡ false)
    × AreWaiting cell ws

abbrev pub amount_of : Option Pd → ℕ
amount_of none = 0
amount_of (some d) = d.request_args.arg1

-- What the tasks of a list ask for together.
unfoldable pub demand : (Ptr → Option Pd) → List Ptr → ℕ
demand cell [] = 0
demand cell (w ∷ ws) = amount_of (cell w) + demand cell ws

pub AreWaiting-update :
    (cell : Ptr → Option Pd) (p : Ptr) (c : Option Pd) (ws : List Ptr)
    → has ws p ≡ false
    → AreWaiting cell ws
    → AreWaiting (update cell p c) ws
AreWaiting-update cell p c [] h a = tt
AreWaiting-update cell p c (w ∷ ws) h ((d, e, st, l), o, a) =
    ((d, ground (arith, e), st, l), o, AreWaiting-update cell p c ws (ground arith) a)

pub demand-update :
    (cell : Ptr → Option Pd) (p : Ptr) (c : Option Pd) (ws : List Ptr)
    → has ws p ≡ false
    → demand (update cell p c) ws ≡ demand cell ws
unfolding demand
demand-update cell p c [] h = refl
demand-update cell p c (w ∷ ws) h = ground (arith, demand-update cell p c ws)

-- A queue that has lost its head.
pub shorter :
    (q : Queue) (w : Ptr) (ws : List Ptr)
    → IsValid q
    → q.elements ≡ w ∷ ws
    → IsValid (record q { elements = ws; count = q.count - 1 })
shorter q w ws v e =
    let n : length q.elements ≡ suc (length ws) = ap length e in
    record { counted = omega (arith, v.counted); small = omega (arith, v.small) }

abbrev pub ready_pd : Pd → Pd
ready_pd d = record d { state = ProcessState.ready }

-- The tasks of the list are ready, the others as they were.
abbrev pub Readied : (Ptr → Option Pd) → List Ptr → (Ptr → Option Pd) → Type 0
Readied cell ws cell' =
    (p : Ptr) → cell' p ≡ (if has ws p then Option.map ready_pd (cell p) else cell p)

pub Readied-cons :
    (cell : Ptr → Option Pd) (w : Ptr) (ws : List Ptr) (d : Pd) (cell' : Ptr → Option Pd)
    → cell w ≡ some d
    → has ws w ≡ false
    → Readied (update cell w (some (ready_pd d))) ws cell'
    → Readied cell (w ∷ ws) cell'
Readied-cons cell w ws d cell' e o r p = ground (arith, r p)

-- What the loop leaves: the waiters of `front` served, those of `back` in the queue.
pub record Serves (k : Kernel) (s : Ptr) (sem : Semaphore) (front back : List Ptr) (k' : Kernel)
    : Type 0 where
  pub after : Semaphore
  pub holds_sem : k'.semaphores.cell s ≡ some after
  pub left : after.count + demand k.tasks.cell front ≡ sem.count
  pub queue : after.wait_queue.elements ≡ back
  pub valid : IsValid after.wait_queue
  pub readied : Readied k.tasks.cell front k'.tasks.cell
  pub same_switch : k'.kernel_request_cswitch ≡ k.kernel_request_cswitch

abbrev pub fewer : Semaphore → Pd → List Ptr → Semaphore
fewer sem d ws = record sem {
  count = sem.count - d.request_args.arg1;
  wait_queue = record (sem.wait_queue) { elements = ws; count = sem.wait_queue.count - 1 };
}

pub has-append : (xs ys : List Ptr) (p : Ptr) → has (xs ++ ys) p ≡ (has xs p || has ys p)
has-append [] ys p = refl
has-append (x ∷ xs) ys p = ground (arith, has-append xs ys p)
