-- ===== src/Mutex/Safety/Counts.antt =====
-- What a lock and an unlock do to the counts of the abstract lock.
use ez_rtos.Base.{
  ℕ, ◌+◌, ◌-◌, ◌<◌, ◌≡◌, ◌≢◌, Bool, false, Option, none, some, List, [], ◌∷◌, arith, ◌==◌,
  if◌then◌else◌, Ptr,
}
use ez_rtos.Mutex.Refine.{Lock, spec_lock, spec_unlock}

-- How often the task at `p` has the lock.
abbrev pub count_in : (Ptr → ℕ) → Lock → Ptr → ℕ
count_in pid_of l p = if pid_of p == l.holder then l.depth else 0

abbrev pub some_is : Option Ptr → Ptr → Bool
some_is none p = false
some_is (some q) p = p == q

module _ (pid_of : Ptr → ℕ) (l : Lock) (c : Ptr) (np : pid_of c ≢ 0)
    (unique : (p : Ptr) → pid_of p ≡ pid_of c → p ≡ c) (free : l.holder ≡ 0 → l.depth ≡ 0) where
  pub count_in-spec_lock :
      (p : Ptr)
      → count_in pid_of ((spec_lock (pid_of c) c l).0) p ≡ (
          if p == c
          then (if (spec_lock (pid_of c) c l).1
              then count_in pid_of l p
              else count_in pid_of l p + 1)
          else count_in pid_of l p)
  count_in-spec_lock p = let u = unique p in ground arith

-- The first of the line, if there is one, is another task than `c`, with an identifier.
abbrev pub HeadIsOther : (Ptr → ℕ) → Ptr → List Ptr → Type 0
HeadIsOther pid_of c [] = Unit {0}
HeadIsOther pid_of c (w ∷ ws) = (pid_of w ≢ 0) × (w ≢ c)

module _ (pid_of : Ptr → ℕ) (holder depth : ℕ) (c : Ptr) (np : pid_of c ≢ 0)
    (unique : (p q : Ptr) → pid_of p ≢ 0 → pid_of p ≡ pid_of q → p ≡ q)
    (held : holder ≢ 0 → 0 < depth) where
  abbrev lock_of : List Ptr → Lock
  lock_of ws = record { holder = holder; depth = depth; line = ws }

  pub count_in-spec_unlock :
      (ws : List Ptr)
      → HeadIsOther pid_of c ws
      → (p : Ptr)
      → count_in pid_of ((spec_unlock pid_of (pid_of c) (lock_of ws)).0) p ≡ (
          if p == c
          then (if holder == pid_of c
              then count_in pid_of (lock_of ws) p - 1
              else count_in pid_of (lock_of ws) p)
          else if some_is ((spec_unlock pid_of (pid_of c) (lock_of ws)).1) p
          then 1
          else count_in pid_of (lock_of ws) p)
  count_in-spec_unlock [] h p = let u = unique c p np in ground arith
  count_in-spec_unlock (w ∷ ws) (nw, ne) p =
      let u = unique c p np in let u' = unique w p nw in ground arith
