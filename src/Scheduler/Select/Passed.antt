-- ===== src/Scheduler/Select/Passed.antt =====
-- The starving tasks that `Kernel_Select_Next_Task` of p2/rtos/kernel/kernel.c notes.
use ez_rtos.Base.{
  ℕ, ◌≤◌, ◌<◌, ◌≡◌, refl, ap, ◌≢◌, ◌⊎◌, inl, inr, Bool, true, false, ◌&&◌, Option, none, some, List,
  [], ◌∷◌, ◌++◌, arith, ltb, leb, if◌then◌else◌, Bool-cases, All, Ptr, null,
}
use ez_rtos.PtrList.{Node}
use ez_rtos.Kernel.Types.{Pd, is_ready}
use ez_rtos.Scheduler.Select.{Search}

module _ (cell : Ptr → Option Pd) where
  -- The best priority up to and with the task of the node, when it is `p` before.
  abbrev best_with : ℕ → Node → ℕ
  best_with p n = elim (cell n.ptr) [
    | none ↦ p
    | some d ↦ if is_ready d.state && ltb d.pri p then d.pri else p
  ]

  -- A ready task that has missed 160 ticks or more, of a priority that is not better than `p`.
  abbrev is_passed : ℕ → Node → Bool
  is_passed p n = elim (cell n.ptr) [
    | none ↦ false
    | some d ↦ is_ready d.state && leb p d.pri && leb 160 d.starvation_ticks
  ]

  -- The starving tasks of the list that are passed over: those with a ready task of the same or a
  -- better priority before them, where `p` is the best priority before the list.
  unfoldable pub passed_over : ℕ → List Node → List Node
  passed_over p [] = []
  passed_over p (n ∷ ns) =
      let rest = passed_over (best_with p n) ns in if is_passed p n then n ∷ rest else rest

  module _ (p : ℕ) (n : Node) (ns : List Node) (d : Pd) (e : cell n.ptr ≡ some d) where
    pub passed_over-better :
        is_ready d.state ≡ true → d.pri < p → passed_over p (n ∷ ns) ≡ passed_over d.pri ns
    unfolding passed_over
    passed_over-better r l = ground (arith, e)

    pub passed_over-passed :
        is_ready d.state ≡ true
        → p ≤ d.pri
        → 160 ≤ d.starvation_ticks
        → passed_over p (n ∷ ns) ≡ n ∷ passed_over p ns
    unfolding passed_over
    passed_over-passed r l h = ground (arith, e)

    pub passed_over-fed :
        (is_ready d.state ≡ true → (p ≤ d.pri) × (d.starvation_ticks < 160))
        → passed_over p (n ∷ ns) ≡ passed_over p ns
    unfolding passed_over
    passed_over-fed f = ground (arith, e, f)

  pub passed_over-All :
      (P : Node → Type 0) (p : ℕ) (ns : List Node) → All P ns → All P (passed_over p ns)
  unfolding passed_over
  passed_over-All P p [] a = tt
  passed_over-All P p (n ∷ ns) (h, a) =
      let rest = passed_over-All P (best_with p n) ns a in
      elim (Bool-cases (is_passed p n)) [ inl is ↦ rw is (h, rest) | inr not_so ↦ rw not_so rest ]

  -- A ready task that has missed 160 ticks or more.
  abbrev pub IsStarving : Node → Type 0
  IsStarving n =
      (d : Pd) × (cell n.ptr ≡ some d) × (is_ready d.state ≡ true) × (160 ≤ d.starvation_ticks)

  is_passed-IsStarving :
      (p : ℕ) (n : Node) (c : Option Pd) → cell n.ptr ≡ c → is_passed p n ≡ true → IsStarving n
  is_passed-IsStarving p n none e h = ground (arith, e)
  is_passed-IsStarving p n (some d) e h = (d, e, ground (arith, e), ground (arith, e))

  pub passed_over-IsStarving : (p : ℕ) (ns : List Node) → All IsStarving (passed_over p ns)
  unfolding passed_over
  passed_over-IsStarving p [] = tt
  passed_over-IsStarving p (n ∷ ns) =
      let rest = passed_over-IsStarving (best_with p n) ns in
      elim (Bool-cases (is_passed p n)) [
        | inl is ↦ rw is (is_passed-IsStarving p n (cell n.ptr) refl is, rest)
        | inr not_so ↦ rw not_so rest
      ]

  -- The task of the node has missed at least, or more than, so many ticks.
  abbrev pub HasMissed : ℕ → Node → Type 0
  HasMissed t n = (d : Pd) → cell n.ptr ≡ some d → t ≤ d.starvation_ticks

  abbrev pub HasMissedMore : ℕ → Node → Type 0
  HasMissedMore t n = (d : Pd) → cell n.ptr ≡ some d → t < d.starvation_ticks

  -- `d` takes the place of the task that is noted.
  abbrev pub IsUnder : Search → Pd → Type 0
  IsUnder s d =
      (s.most_starved ≡ null)
      ⊎ ((ms : Pd) × (cell s.process_ms ≡ some ms) × (d.starvation_ticks < ms.starvation_ticks))

  -- The search notes one of the tasks `ns`, the first of those that have missed the fewest ticks, or
  -- keeps to the one that it has.
  pub data Starves (s : Search) (ns : List Node) (s' : Search) : Type 0 where
    keeps :
        s'.most_starved ≡ s.most_starved
        → (s.most_starved ≡ null → ns ≡ [])
        → ((ms : Pd)
            → cell s.process_ms ≡ some ms
            → s.most_starved ≢ null
            → All (HasMissed ms.starvation_ticks) ns)
        → Starves s ns s'
    notes :
        (before : List Node) (n : Node) (after : List Node) (d : Pd)
        → ns ≡ before ++ (n ∷ after)
        → n.addr ≡ s'.most_starved
        → cell n.ptr ≡ some d
        → All (HasMissedMore d.starvation_ticks) before
        → All (HasMissed d.starvation_ticks) after
        → IsUnder s d
        → Starves s ns s'

  pub Starves-same :
      (s s₁ : Search) (ns : List Node) (s' : Search)
      → s₁.most_starved ≡ s.most_starved
      → s₁.process_ms ≡ s.process_ms
      → Starves s₁ ns s'
      → Starves s ns s'
  Starves-same s s₁ ns s' e p (keeps q z a) =
      keeps (ground arith) (λ n. z (ground arith))
        (λ ms h n. a ms (ground arith) (λ y. n (ground arith)))
  Starves-same s s₁ ns s' e p (notes before n after d q at h b a u) =
      notes before n after d q at h b a (ground (arith, u))

  module _ (s : Search) (n : Node) (ns : List Node) (d : Pd) (s' : Search)
      (e : cell n.ptr ≡ some d) where
    -- The task `n` is looked at, and has missed no fewer ticks than the one that is noted.
    pub Starves-kept :
        (ms : Pd)
        → cell s.process_ms ≡ some ms
        → s.most_starved ≢ null
        → ms.starvation_ticks ≤ d.starvation_ticks
        → Starves s ns s'
        → Starves s (n ∷ ns) s'
    Starves-kept ms h ne l (keeps q z a) =
        keeps q (λ y. absurd (ne y)) (λ ms' h' ne'. (λ d' e'. ground arith, a ms' h' ne'))
    Starves-kept ms h ne l (notes before x after d' q at hx b a u) =
        notes (n ∷ before) x after d' (ap (◌∷◌ n) q) at hx ((λ d'' e''. ground (arith, u)), b) a u

    -- The task `n` is noted.
    pub Starves-noted :
        (s₁ : Search)
        → s₁.most_starved ≡ n.addr
        → s₁.process_ms ≡ n.ptr
        → n.addr ≢ null
        → IsUnder s d
        → Starves s₁ ns s'
        → Starves s (n ∷ ns) s'
    Starves-noted s₁ at p ne u (keeps q z a) =
        notes [] n ns d refl (ground arith) e tt (a d (ground arith) (λ y. ne (ground arith))) u
    Starves-noted s₁ at p ne u (notes before x after d' q at' hx b a u') =
        let less : d'.starvation_ticks < d.starvation_ticks = elim u' [
          | inl z ↦ absurd (ne (ground arith))
          | inr (ms, h, l) ↦ ground arith
        ] in
        notes (n ∷ before) x after d' (ap (◌∷◌ n) q) at' hx ((λ d'' e''. ground arith), b) a
          (ground (arith, u))
