-- ===== src/Scheduler/Dispatch/Wakes.antt =====
-- The idle loop of `Kernel_Dispatch_Next_Task`, from its first round to the ready task that ends it.
pub mod Ends
use ez_rtos.Scheduler.Dispatch.{count_round, idle}
use ez_rtos.Scheduler.Select.{ptr_at}
use ez_rtos.Scheduler.Select.Rounds.{ptr_at-nodes}
use ez_rtos.Scheduler.Tick.{tick_pd}
use ez_rtos.Scheduler.Tick.Timeout.{kernel_tick_handler-mapped}
use ez_rtos.PtrList.{Node, PtrList, nodes, holds}
use ez_rtos.PtrList.Cycle.{AreNodes, next_addr, cnext-append}
use ez_rtos.Kernel.ForEach.{AreTasks, mapped}
use ez_rtos.Kernel.Types.{Pd, is_ready}
use ez_rtos.Kernel.State.{Kernel}
use ez_rtos.Kernel.Run.{ok}
use ez_rtos.Base.{
  ℕ, suc, ◌+◌, ◌*◌, ◌%◌, ◌<◌, ◌≡◌, refl, sym, ap, ◌∙◌, subst, ◌≢◌, ◌⊎◌, Bool, true, false, Option,
  some, List, [], ◌∷◌, ◌++◌, arith, length, All, All-right, Ptr, add_word,
}
use mathlib.Core.List.{append_assoc}

-- A node has a task in memory, which is ready or not.
abbrev pub HasState : (Ptr → Option Pd) → Bool → Node → Type 0
HasState cell b n = (d : Pd) × (cell n.ptr ≡ some d) × (is_ready d.state ≡ b)

-- Some node of the list has a ready task.
abbrev pub AnyReady : (Ptr → Option Pd) → List Node → Type 0
AnyReady cell [] = ⊥
AnyReady cell (n ∷ ns) = HasState cell true n ⊎ AnyReady cell ns

abbrev pub HasPd : (Ptr → Option Pd) → Node → Type 0
HasPd cell n = (d : Pd) × (cell n.ptr ≡ some d)

-- The ticks counted after those that came in.
abbrev pub counted_ticks : List ℕ → ℕ → ℕ
counted_ticks [] t = t
counted_ticks (x ∷ xs) t = counted_ticks xs (add_word t x)

abbrev pub with_ticks : Kernel → ℕ → Kernel
with_ticks k t = record k { tick_count = t }

-- The number of rounds after which the ticks are handled.
abbrev pub period : Kernel → ℕ
period k = (k.tasks.count * 100) % 65536

count_round-counts :
    (j : ℕ) (k : Kernel) → j + 1 < period k → period k < 65536 → count_round j k ≡ ok (j + 1) k
unfolding count_round
count_round-counts j k h w = let next : add_word j 1 ≡ j + 1 = omega (arith, h, w) in ground arith

-- The kernel after `t` ticks have been handled.
abbrev pub handled : Kernel → ℕ → Kernel
handled k t = record k {
  tick_count = 0;
  tasks = record (k.tasks) { cell = mapped (tick_pd t) (nodes k.tasks.list) k.tasks.cell };
}

count_round-handles :
    (j : ℕ) (k : Kernel)
    → j + 1 ≡ period k
    → k.tick_count ≢ 0
    → AreTasks k.tasks.cell (nodes k.tasks.list)
    → count_round j k ≡ ok 0 (handled k k.tick_count)
unfolding count_round
count_round-handles j k h t tasks =
    let next : add_word j 1 ≡ j + 1 = omega (arith, h) in
    let handles = kernel_tick_handler-mapped k t tasks in ground arith

module _ (k : Kernel) (pre : List Node) (n : Node) (post : List Node)
    (e : nodes k.tasks.list ≡ pre ++ (n ∷ post)) (a : AreNodes (nodes k.tasks.list)) where
  here : ptr_at n.addr (nodes k.tasks.list) ≡ some n.ptr
  here = ptr_at-nodes k.tasks.list pre n post e a

  -- A ready task ends the loop.
  idle-stops : (zs : List ℕ) (j : ℕ) → HasState k.tasks.cell true n → idle zs n.addr j k ≡ ok tt k
  unfolding idle
  idle-stops [] j (d, holds, up) = ground (arith, here)
  idle-stops (z ∷ zs) j (d, holds, up) = ground (arith, here)

  -- A round with no ready task counts the ticks.
  idle-counts :
      (x : ℕ) (zs : List ℕ) (j : ℕ)
      → HasState k.tasks.cell false n
      → j + 1 < period k
      → period k < 65536
      → idle (x ∷ zs) n.addr j k
        ≡ idle zs (next_addr k.tasks.list post) (j + 1) (with_ticks k (add_word k.tick_count x))
  unfolding idle
  idle-counts x zs j (d, holds, up) h w = ground (
    arith,
    here,
    cnext-append k.tasks.list pre n post e a,
    count_round-counts j (with_ticks k (add_word k.tick_count x)) h w,
  )

  -- In the last round of the period the handler runs.
  idle-handles :
      (x : ℕ) (zs : List ℕ) (j : ℕ)
      → HasState k.tasks.cell false n
      → j + 1 ≡ period k
      → add_word k.tick_count x ≢ 0
      → AreTasks k.tasks.cell (nodes k.tasks.list)
      → idle (x ∷ zs) n.addr j k
        ≡ idle zs (next_addr k.tasks.list post) 0 (handled k (add_word k.tick_count x))
  unfolding idle
  idle-handles x zs j (d, holds, up) h t tasks = ground (
    arith,
    here,
    cnext-append k.tasks.list pre n post e a,
    count_round-handles j (with_ticks k (add_word k.tick_count x)) h t tasks,
  )

-- `i` is the address of a node.
abbrev pub IsNode : PtrList → Ptr → Type 0
IsNode l i =
    (pre : List Node) × (n : Node) × (post : List Node) × (nodes l ≡ pre ++ (n ∷ post))
    × (i ≡ n.addr)

next_addr-IsNode :
    (l : PtrList) (pre : List Node) (n : Node) (post : List Node)
    → nodes l ≡ pre ++ (n ∷ post)
    → IsNode l (next_addr l post)
next_addr-IsNode l pre n [] e = ([], record { addr = l.addr; ptr = l.ptr }, l.next, refl, refl)
next_addr-IsNode l pre n (m ∷ post) e =
    (pre ++ (n ∷ []), m, post, e ∙ sym (append_assoc pre (n ∷ []) (m ∷ post)), refl)

-- The rounds before the handler runs, with no task ready.
idle-waits :
    (xs zs : List ℕ) (i : Ptr) (j : ℕ) (k : Kernel)
    → IsNode k.tasks.list i
    → AreNodes (nodes k.tasks.list)
    → All (HasState k.tasks.cell false) (nodes k.tasks.list)
    → j + length xs < period k
    → (i' : Ptr) × IsNode k.tasks.list i'
      × (idle (xs ++ zs) i j k
          ≡ idle zs i' (j + length xs) (with_ticks k (counted_ticks xs k.tick_count)))
idle-waits [] zs i j k at a none_ready h = (i, at, ap (λ c. idle zs i c k) (omega arith))
idle-waits (x ∷ xs) zs i j k (pre, n, post, e, same) a none_ready h =
    let waiting_here =
      (All-right (HasState k.tasks.cell false) pre (n ∷ post)
        (subst (All (HasState k.tasks.cell false)) e none_ready)).0 in
    let k' = with_ticks k (add_word k.tick_count x) in
    let (i', at', later) =
      idle-waits xs zs (next_addr k.tasks.list post) (j + 1) k'
        (next_addr-IsNode k.tasks.list pre n post e) a none_ready (omega (arith, h)) in
    let count : j + 1 + length xs ≡ j + suc (length xs) = omega arith in
    (
      i',
      at',
      ap (λ c. idle (x ∷ (xs ++ zs)) c j k) same
          ∙ idle-counts k pre n post e a x (xs ++ zs) j waiting_here (omega (arith, h))
              (omega arith)
          ∙ later
          ∙ ap (λ c. idle zs i' c (with_ticks k (counted_ticks (x ∷ xs) k.tick_count))) count,
    )
