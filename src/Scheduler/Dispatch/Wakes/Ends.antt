-- ===== src/Scheduler/Dispatch/Wakes/Ends.antt =====
-- The end of the idle loop.
use ez_rtos.Base.{
  ℕ, suc, ◌+◌, ◌*◌, ◌≤◌, ◌<◌, ◌≡◌, refl, sym, ap, ◌∙◌, subst, ◌≢◌, inl, inr, Bool, true, false,
  Option, some, List, [], ◌∷◌, ◌++◌, arith, if◌then◌else◌, Bool-cases, length, length-append, All,
  All-right, Ptr, add_word,
}
use ez_rtos.Scheduler.Dispatch.{idle}
use ez_rtos.Scheduler.Dispatch.Wakes.{
  HasState, AnyReady, HasPd, counted_ticks, with_ticks, period, handled, idle-stops, idle-counts,
  idle-handles, IsNode, next_addr-IsNode, idle-waits,
}
use ez_rtos.Scheduler.Tick.{tick_pd}
use ez_rtos.PtrList.{Node, nodes, holds}
use ez_rtos.PtrList.Cycle.{AreNodes, next_addr}
use ez_rtos.Kernel.ForEach.{AreTasks, mapped}
use ez_rtos.Kernel.Types.{Pd, is_ready}
use ez_rtos.Kernel.State.{Kernel}
use ez_rtos.Kernel.Run.{ok}
use mathlib.Core.List.{append_assoc}
use mathlib.Core.Option

-- The loop ends, and has changed no task.
abbrev Stops : List ℕ → Ptr → ℕ → Kernel → Type 0
Stops zs i j k = (k' : Kernel) × (idle zs i j k ≡ ok tt k') × (k'.tasks ≡ k.tasks)

HasState-of :
    {T : Type 0} (cell : Ptr → Option Pd) (n : Node)
    → HasPd cell n
    → (HasState cell true n → T)
    → (HasState cell false n → T)
    → T
HasState-of cell n (d, held) when_up when_down = elim (Bool-cases (is_ready d.state)) [
  | inl up ↦ when_up (d, held, up)
  | inr down ↦ when_down (d, held, down)
]

step_on :
    (k : Kernel) (pre : List Node) (n : Node) (post : List Node) (z : ℕ) (zs : List ℕ) (j : ℕ)
    → nodes k.tasks.list ≡ pre ++ (n ∷ post)
    → AreNodes (nodes k.tasks.list)
    → HasState k.tasks.cell false n
    → j + 1 < period k
    → Stops zs (next_addr k.tasks.list post) (j + 1) (with_ticks k (add_word k.tick_count z))
    → Stops (z ∷ zs) n.addr j k
step_on k pre n post z zs j e a waits h (k', run, same) =
    (k', idle-counts k pre n post e a z zs j waits h (omega arith) ∙ run, same)

-- A ready task at or behind the node is reached.
idle-forward :
    (post : List Node) (k : Kernel) (pre : List Node) (n : Node) (zs : List ℕ) (j : ℕ)
    → nodes k.tasks.list ≡ pre ++ (n ∷ post)
    → AreNodes (nodes k.tasks.list)
    → All (HasPd k.tasks.cell) (n ∷ post)
    → AnyReady k.tasks.cell (n ∷ post)
    → length post ≤ length zs
    → j + length post < period k
    → Stops zs n.addr j k
idle-forward [] k pre n zs j e a has (inl up) l h = (k, idle-stops k pre n [] e a zs j up, refl)
idle-forward [] k pre n zs j e a has (inr none_ready) l h = absurd none_ready
idle-forward (m ∷ post) k pre n zs j e a has (inl up) l h =
    (k, idle-stops k pre n (m ∷ post) e a zs j up, refl)
idle-forward (m ∷ post) k pre n [] j e a has (inr later) l h = absurd (omega (arith, l))
idle-forward (m ∷ post) k pre n (z ∷ zs) j e a has (inr later) l h =
    HasState-of k.tasks.cell n has.0
      (λ up. (k, idle-stops k pre n (m ∷ post) e a (z ∷ zs) j up, refl))
      (λ down. step_on k pre n (m ∷ post) z zs j e a down (omega (arith, h)) (
        idle-forward post (with_ticks k (add_word k.tick_count z)) (pre ++ (n ∷ [])) m zs (j + 1)
          (e ∙ sym (append_assoc pre (n ∷ []) (m ∷ post))) a has.1 later (omega (arith, l))
          (omega (arith, h))))

-- A ready task anywhere is reached, round the end of the list.
idle-round :
    (post : List Node) (k : Kernel) (pre : List Node) (n : Node) (zs : List ℕ) (j : ℕ)
    → nodes k.tasks.list ≡ pre ++ (n ∷ post)
    → AreNodes (nodes k.tasks.list)
    → All (HasPd k.tasks.cell) (n ∷ post)
    → All (HasPd k.tasks.cell) (nodes k.tasks.list)
    → AnyReady k.tasks.cell (nodes k.tasks.list)
    → length post + 1 + length k.tasks.list.next ≤ length zs
    → j + length post + 1 + length k.tasks.list.next < period k
    → Stops zs n.addr j k
idle-round post k pre n [] j e a has all some_ready l h = absurd (omega (arith, l))
idle-round [] k pre n (z ∷ zs) j e a has all some_ready l h =
    HasState-of k.tasks.cell n has.0 (λ up. (k, idle-stops k pre n [] e a (z ∷ zs) j up, refl))
      (λ down. step_on k pre n [] z zs j e a down (omega (arith, h)) (
        idle-forward k.tasks.list.next (with_ticks k (add_word k.tick_count z)) []
          (record { addr = k.tasks.list.addr; ptr = k.tasks.list.ptr }) zs (j + 1) refl a all
          some_ready (omega (arith, l)) (omega (arith, h))))
idle-round (m ∷ post) k pre n (z ∷ zs) j e a has all some_ready l h =
    HasState-of k.tasks.cell n has.0
      (λ up. (k, idle-stops k pre n (m ∷ post) e a (z ∷ zs) j up, refl))
      (λ down. step_on k pre n (m ∷ post) z zs j e a down (omega (arith, h)) (
        idle-round post (with_ticks k (add_word k.tick_count z)) (pre ++ (n ∷ [])) m zs (j + 1)
          (e ∙ sym (append_assoc pre (n ∷ []) (m ∷ post))) a has.1 all some_ready (omega (arith, l))
          (omega (arith, h))))

mapped-HasPd :
    (f : Pd → Pd) (ms ns : List Node) (cell : Ptr → Option Pd)
    → All (HasState cell false) ns
    → All (HasPd (mapped f ms cell)) ns
mapped-HasPd f ms [] cell h = tt
mapped-HasPd f ms (n ∷ ns) cell ((d, e, down), h) =
    (still (holds ms n.ptr), mapped-HasPd f ms ns cell h)
  where
    still :
        (b : Bool) → (d' : Pd) × ((if b then Option.map f (cell n.ptr) else cell n.ptr) ≡ some d')
    still true = (f d, rw e refl)
    still false = (d, e)

-- The idle loop, which starts at a node of the process list while no task is ready, ends when the
-- ticks of its first period, as many rounds as a hundred times the tasks, make one ready: in the
-- last round of the period the ticks that have come in are handled, and of two rounds for each task
-- that follow at most, one finds a ready task. The loop leaves the tasks as the tick handler has
-- made them. The process list is in order with different tasks in memory, the task count is its
-- length and a hundred times it does not wrap, and the ticks counted are not 0.
pub idle-ends :
    (xs ys : List ℕ) (x : ℕ) (i : Ptr) (k : Kernel)
    → IsNode k.tasks.list i
    → AreNodes (nodes k.tasks.list)
    → AreTasks k.tasks.cell (nodes k.tasks.list)
    → All (HasState k.tasks.cell false) (nodes k.tasks.list)
    → k.tasks.count ≡ length (nodes k.tasks.list)
    → k.tasks.count * 100 < 65536
    → length xs + 1 ≡ k.tasks.count * 100
    → add_word (counted_ticks xs k.tick_count) x ≢ 0
    → AnyReady
        (handled k (add_word (counted_ticks xs k.tick_count) x)).tasks.cell
        (nodes k.tasks.list)
    → 2 * length (nodes k.tasks.list) ≤ length ys
    → (k' : Kernel) × (idle (xs ++ (x ∷ ys)) i 0 k ≡ ok tt k')
      × (k'.tasks ≡ (handled k (add_word (counted_ticks xs k.tick_count) x)).tasks)
idle-ends xs ys x i k at a tasks none_ready counted small whole some_ticks some_ready long =
    let t = add_word (counted_ticks xs k.tick_count) x in
    let all : period k ≡ k.tasks.count * 100 = omega (arith, small) in
    let (i', (pre, n, post, e, same), waits) =
      idle-waits xs (x ∷ ys) i 0 k at a none_ready (omega (arith, whole, all)) in
    let kw = with_ticks k (counted_ticks xs k.tick_count) in
    let down =
      (All-right (HasState k.tasks.cell false) pre (n ∷ post)
        (subst (All (HasState k.tasks.cell false)) e none_ready)).0 in
    let handles =
      idle-handles kw pre n post e a x ys (0 + length xs) down (omega (arith, whole, all))
        some_ticks tasks in
    let has =
      mapped-HasPd (tick_pd t) (nodes k.tasks.list) (nodes k.tasks.list) k.tasks.cell none_ready in
    let (k', stops, kept) =
      reach (next_addr k.tasks.list post) (next_addr-IsNode k.tasks.list pre n post e) t has
        some_ready in
    (k', waits ∙ ap (λ c. idle (x ∷ ys) c (0 + length xs) kw) same ∙ handles ∙ stops, kept)
  where
    reach :
        (c : Ptr)
        → IsNode k.tasks.list c
        → (t : ℕ) → All (HasPd (handled k t).tasks.cell) (nodes k.tasks.list)
        → AnyReady (handled k t).tasks.cell (nodes k.tasks.list)
        → Stops ys c 0 (handled k t)
    reach c (pre, n, post, e, same) t has ready_one =
        let cell = (handled k t).tasks.cell in
        let split_nodes : length (nodes k.tasks.list) ≡ length pre + suc (length post) =
          ap length e ∙ length-append pre (n ∷ post) in
        let all : period k ≡ k.tasks.count * 100 = omega (arith, small) in
        let behind = All-right (HasPd cell) pre (n ∷ post) (subst (All (HasPd cell)) e has) in
        let (k', run, kept) =
          idle-round post (handled k t) pre n ys 0 e a behind has ready_one
            (omega (arith, long, split_nodes)) (omega (arith, split_nodes, all, counted)) in
        (k', ap (λ d. idle ys d 0 (handled k t)) same ∙ run, kept)
