-- ===== src/Scheduler/Select/Found.antt =====
-- What a search over a list of tasks finds, by the body of the loop of `Kernel_Select_Next_Task`.
use ez_rtos.Base.{
  ℕ, ◌≤◌, ◌<◌, ◌≡◌, refl, ap, subst, ◌≢◌, ◌⊎◌, inl, inr, true, Option, some, List, [], ◌∷◌, ◌++◌,
  arith, ltb, leb, ◌==◌, Bool-cases, All, Ptr, null,
}
use ez_rtos.PtrList.{Node}
use ez_rtos.Kernel.Types.{Pd, is_ready}
use ez_rtos.Scheduler.Select.Rounds.{consider_node, consider_all}
use ez_rtos.Scheduler.Select.Passed.{
  passed_over, passed_over-better, passed_over-passed, passed_over-fed, IsUnder, Starves, keeps,
  Starves-same, Starves-kept, Starves-noted,
}
use ez_rtos.Scheduler.Select.{starvation_max, Search, note_starving, consider}

module _ (cell : Ptr → Option Pd) where
  -- The node holds a task whose descriptor is in memory.
  abbrev pub HasTask : Node → Type 0
  HasTask n = (n.addr ≢ null) × ((d : Pd) × (cell n.ptr ≡ some d) × (d.pri ≤ 10))

  -- A task that is ready has a priority of `p` or a lower one (a greater number).
  abbrev pub NotAbove : ℕ → Node → Type 0
  NotAbove p n = (d : Pd) → cell n.ptr ≡ some d → is_ready d.state ≡ true → p ≤ d.pri

  -- `process_ms` can be read when it is needed.
  abbrev MsOk : Search → Type 0
  MsOk s = (s.most_starved ≡ null) ⊎ ((d : Pd) × (cell s.process_ms ≡ some d))

  -- The noted task `ms` has missed no more ticks than `d`.
  abbrev IsKept : Search → Pd → Pd → Type 0
  IsKept s d ms =
      (s.most_starved ≢ null)
      × (cell s.process_ms ≡ some ms)
      × (ms.starvation_ticks ≤ d.starvation_ticks)

  -- What the body of the loop makes of the search.
  data Considered (i p : Ptr) (d : Pd) (s s' : Search) : Type 0 where
    better :
        is_ready d.state ≡ true
        → d.pri < s.highest_priority
        → s' ≡ record s { next_dispatch = i; highest_priority = d.pri }
        → Considered i p d s s'
    same :
        (is_ready d.state ≡ true → (s.highest_priority ≤ d.pri) × (d.starvation_ticks < 160))
        → s' ≡ s
        → Considered i p d s s'
    kept :
        (ms : Pd)
        → is_ready d.state ≡ true
        → s.highest_priority ≤ d.pri
        → 160 ≤ d.starvation_ticks
        → IsKept s d ms
        → s' ≡ s
        → Considered i p d s s'
    starving :
        is_ready d.state ≡ true
        → s.highest_priority ≤ d.pri
        → 160 ≤ d.starvation_ticks
        → IsUnder cell s d
        → s' ≡ record s { most_starved = i; process_ms = p }
        → Considered i p d s s'

  note_starving_cases :
      (i p : Ptr) (d : Pd) (s : Search)
      → MsOk s
      → ((ms : Pd) × (note_starving cell i p d s ≡ some s) × IsKept s d ms)
        ⊎ ((note_starving cell i p d s ≡ some (record s { most_starved = i; process_ms = p }))
            × IsUnder cell s d)
  unfolding note_starving
  note_starving_cases i p d s (inl z) = inr (rw z refl, inl z)
  note_starving_cases i p d s (inr (ms, e)) = elim (Bool-cases (s.most_starved == null)) [
    | inl is ↦ inr (rw is refl, inl (ground arith))
    | inr not_null ↦ elim (Bool-cases (leb ms.starvation_ticks d.starvation_ticks)) [
      | inl more ↦ inl (ms, rw (not_null, e, more) refl, (ground arith, e, ground arith))
      | inr less ↦ inr (rw (not_null, e, less) refl, inr (ms, e, ground arith))
    ]
  ]

  consider_cases :
      (i p : Ptr) (d : Pd) (s : Search)
      → MsOk s
      → (s' : Search) × (consider cell i p d s ≡ some s') × Considered i p d s s'
  unfolding consider
  consider_cases i p d s m = elim (Bool-cases (is_ready d.state)) [
    | inr busy ↦ (s, rw busy refl, same (λ r. cc) refl)
    | inl up ↦ elim (Bool-cases (ltb d.pri s.highest_priority)) [
      | inl lower ↦ (
        record s { next_dispatch = i; highest_priority = d.pri },
        rw (up, lower) refl,
        better up (ground arith) refl,
      )
      | inr not_lower ↦ elim (Bool-cases (leb starvation_max d.starvation_ticks)) [
        | inr fed ↦ (s, rw (up, not_lower, fed) refl, same (λ r. (ground arith, ground arith)) refl)
        | inl hungry ↦ elim (note_starving_cases i p d s m) [
          | inl (ms, unchanged, k) ↦ (
            s,
            rw (up, not_lower, hungry) unchanged,
            kept ms up (ground arith) (ground arith) k refl,
          )
          | inr (noted, under) ↦ (
            record s { most_starved = i; process_ms = p },
            rw (up, not_lower, hungry) noted,
            starving up (ground arith) (ground arith) under refl,
          )
        ]
      ]
    ]
  ]

  -- A task that is ready has a lower priority than `p` (a greater number).
  abbrev pub IsBelow : ℕ → Node → Type 0
  IsBelow p n = (d : Pd) → cell n.ptr ≡ some d → is_ready d.state ≡ true → p < d.pri

  -- The first task of the highest priority.
  pub record First (ns : List Node) (s s' : Search) : Type 0 where
    pub before : List Node
    pub node : Node
    pub after : List Node
    pub task : Pd
    pub splits : ns ≡ before ++ (node ∷ after)
    pub at : node.addr ≡ s'.next_dispatch
    pub holds : cell node.ptr ≡ some task
    pub is_up : is_ready task.state ≡ true
    pub pri : task.pri ≡ s'.highest_priority
    pub improves : s'.highest_priority < s.highest_priority
    pub before_below : All (IsBelow s'.highest_priority) before

  pub record Found (ns : List Node) (s s' : Search) : Type 0 where
    pub lower : s'.highest_priority ≤ s.highest_priority
    pub none_above : All (NotAbove s'.highest_priority) ns
    pub origin :
        ((s'.next_dispatch ≡ s.next_dispatch) × (s'.highest_priority ≡ s.highest_priority))
        ⊎ First ns s s'
    pub starved : Starves cell s (passed_over cell s.highest_priority ns) s'

  module _ (n : Node) (ns : List Node) (d : Pd) (e : cell n.ptr ≡ some d) where
    First-cons :
        (s s₁ s' : Search)
        → s₁.highest_priority ≤ s.highest_priority
        → (is_ready d.state ≡ true → s₁.highest_priority ≤ d.pri)
        → First ns s₁ s'
        → First (n ∷ ns) s s'
    First-cons s s₁ s' l h f = record {
      before = n ∷ f.before;
      node = f.node;
      after = f.after;
      task = f.task;
      splits = ap (◌∷◌ n) f.splits;
      at = f.at;
      holds = f.holds;
      is_up = f.is_up;
      pri = f.pri;
      improves = omega (arith, f.improves);
      before_below = (λ d' e' r'. ground (arith, h, f.improves), f.before_below);
    }

    NotAbove-head : (p q : ℕ) → (is_ready d.state ≡ true → q ≤ d.pri) → p ≤ q → NotAbove p n
    NotAbove-head p q h l d' e' r' = ground (arith, h)

    First-here :
        (s s' : Search)
        → is_ready d.state ≡ true
        → d.pri < s.highest_priority
        → n.addr ≡ s'.next_dispatch
        → d.pri ≡ s'.highest_priority
        → First (n ∷ ns) s s'
    First-here s s' r h a p = record {
      before = [];
      node = n;
      after = ns;
      task = d;
      splits = refl;
      at = a;
      holds = e;
      is_up = r;
      pri = p;
      improves = omega arith;
      before_below = tt;
    }

    -- The search goes on from `s₁`, where this task changed at most the priority.
    module _ (s s₁ s' : Search) (f : Found ns s₁ s')
        (lower : s₁.highest_priority ≤ s.highest_priority)
        (under : is_ready d.state ≡ true → s₁.highest_priority ≤ d.pri) where
      Found-rest :
          (((s'.next_dispatch ≡ s₁.next_dispatch) × (s'.highest_priority ≡ s₁.highest_priority))
            → ((s'.next_dispatch ≡ s.next_dispatch) × (s'.highest_priority ≡ s.highest_priority))
              ⊎ First (n ∷ ns) s s')
          → Starves cell s (passed_over cell s.highest_priority (n ∷ ns)) s'
          → Found (n ∷ ns) s s'
      Found-rest kept_origin starved = record {
        lower = omega (arith, f.lower);
        none_above =
            (NotAbove-head s'.highest_priority s₁.highest_priority under f.lower, f.none_above);
        origin = elim f.origin [
          | inl o ↦ kept_origin o
          | inr first ↦ inr (First-cons s s₁ s' lower under first)
        ];
        starved = starved;
      }

    -- The rest of the search from `s₁`, as one from a search of the same priority as `p`.
    rest_at :
        (s₁ s' : Search) (p : ℕ)
        → s₁.highest_priority ≡ p
        → Found ns s₁ s'
        → Starves cell s₁ (passed_over cell p ns) s'
    rest_at s₁ s' p e f = subst (λ x. Starves cell s₁ (passed_over cell x ns) s') e f.starved

    -- The same, from a search `s` that has noted the same task.
    rest_same :
        (s s₁ s' : Search) (p : ℕ)
        → s₁ ≡ record s { next_dispatch = s₁.next_dispatch; highest_priority = p }
        → Found ns s₁ s'
        → Starves cell s (passed_over cell p ns) s'
    rest_same s s₁ s' p q f =
        Starves-same cell s s₁ (passed_over cell p ns) s' (ap (λ x. x.most_starved) q)
          (ap (λ x. x.process_ms) q) (rest_at s₁ s' p (ap (λ x. x.highest_priority) q) f)

    Found-cons :
        (s s₁ s' : Search)
        → n.addr ≢ null
        → Considered n.addr n.ptr d s s₁
        → Found ns s₁ s'
        → Found (n ∷ ns) s s'
    Found-cons s s₁ s' ne (better r h q) f =
        let rest = rest_same s s₁ s' d.pri (ground arith) f in
        Found-rest s s₁ s' f (ground arith) (λ _. ground arith)
          (λ o. inr (First-here s s' r h (ground arith) (ground arith)))
          (rw (passed_over-better cell s.highest_priority n ns d e r h) rest)
    Found-cons s s₁ s' ne (same h q) f =
        let rest = rest_same s s₁ s' s.highest_priority (ground arith) f in
        Found-rest s s₁ s' f (ground arith) (λ r. ground (arith, (h r).0))
          (λ o. inl (ground arith, ground arith))
          (rw (passed_over-fed cell s.highest_priority n ns d e h) rest)
    Found-cons s s₁ s' ne (kept ms r h m k q) f =
        let p = s.highest_priority in
        let rest = rest_same s s₁ s' p (ground arith) f in
        Found-rest s s₁ s' f (ground arith) (λ r. ground arith)
          (λ o. inl (ground arith, ground arith))
          (rw (passed_over-passed cell p n ns d e r h m)
            (Starves-kept cell s n (passed_over cell p ns) d s' e ms k.1 k.0 k.2 rest))
    Found-cons s s₁ s' ne (starving r h m u q) f =
        let p = s.highest_priority in
        let rest = rest_at s₁ s' p (ap (λ x. x.highest_priority) q) f in
        Found-rest s s₁ s' f (ground arith) (λ r. ground arith)
          (λ o. inl (ground arith, ground arith))
          (rw (passed_over-passed cell p n ns d e r h m) (
            Starves-noted cell s n (passed_over cell p ns) d s' e s₁ (ap (λ x. x.most_starved) q)
              (ap (λ x. x.process_ms) q) ne u rest))

  MsOk-Considered :
      (i p : Ptr) (d : Pd) (s s' : Search)
      → cell p ≡ some d
      → MsOk s
      → Considered i p d s s'
      → MsOk s'
  MsOk-Considered i p d s s' e m (better r h q) = ground arith
  MsOk-Considered i p d s s' e m (same h q) = ground arith
  MsOk-Considered i p d s s' e m (kept ms r h t k q) = ground arith
  MsOk-Considered i p d s s' e m (starving r h t u q) = inr (d, ground arith)

  -- The search over tasks in memory does not fault.
  pub consider_all-Found :
      (ns : List Node) (s : Search)
      → All HasTask ns
      → MsOk s
      → (s' : Search) × (consider_all cell ns s ≡ some s') × Found ns s s'
  unfolding consider_all consider_node passed_over
  consider_all-Found [] s a m = (
    s,
    refl,
    record {
      lower = omega arith;
      none_above = tt;
      origin = inl (refl, refl);
      starved = keeps refl (λ _. refl) (λ ms h n. tt);
    },
  )
  consider_all-Found (n ∷ ns) s ((ne, (d, e, l)), a) m =
      let (s₁, q, c) = consider_cases n.addr n.ptr d s m in
      let (s', q', f) = consider_all-Found ns s₁ a (MsOk-Considered n.addr n.ptr d s s₁ e m c) in
      (s', ground (arith, e, q, q'), Found-cons n ns d e s s₁ s' ne c f)
