-- ===== src/Kernel/Ensures.antt =====
-- Postconditions of kernel code: a run that does not use up its fuel, and ends in a kernel of which
-- `Q` holds unless it faults or is still waiting.
use ez_rtos.Base.{
  ◌≡◌, refl, ◌≢◌, Bool, true, false, Option, none, some, List, [], ◌∷◌, if◌then◌else◌, Ptr, null,
}
use ez_rtos.Kernel.State.{Kernel}
use ez_rtos.Kernel.Run.{
  Run, M, and_then, from_option, take_answer, malloc, ok, fault, waiting, out_of_fuel,
}

pub data Ensures {A : Type 0} (Q : A → Kernel → Type 0) : Run A → Type 0 where
  returns : {a : A} {k : Kernel} → Q a k → Ensures Q (ok a k)
  faults : Ensures Q fault
  waits : {k : Kernel} → Ensures Q (waiting k)

module _ {A : Type 0} {Q : A → Kernel → Type 0} where
  -- Such a run has not used up its fuel, and its result is as described.
  pub Ensures-ne-out_of_fuel : {r : Run A} → Ensures Q r → r ≢ out_of_fuel
  Ensures-ne-out_of_fuel (returns q) e = cc
  Ensures-ne-out_of_fuel faults e = cc
  Ensures-ne-out_of_fuel waits e = cc

  pub if_Ensures :
      (b : Bool) (m n : M A) (k : Kernel)
      → (b ≡ true → Ensures Q (m k))
      → (b ≡ false → Ensures Q (n k))
      → Ensures Q ((if b then m else n) k)
  if_Ensures true m n k h h' = h refl
  if_Ensures false m n k h h' = h' refl

  pub weaken :
      {P : A → Kernel → Type 0} {r : Run A}
      → Ensures P r
      → ((a : A) (k : Kernel) → P a k → Ensures Q (ok a k))
      → Ensures Q r
  weaken (returns p) h = h _ _ p
  weaken faults h = faults
  weaken waits h = waits

module _ {A B : Type 0} {Q : B → Kernel → Type 0} where
  pub and_then-Ensures :
      {P : A → Kernel → Type 0} {r : Run A} (f : A → M B)
      → Ensures P r
      → ((a : A) (k : Kernel) → P a k → Ensures Q (f a k))
      → Ensures Q (and_then r f)
  and_then-Ensures f (returns p) h = h _ _ p
  and_then-Ensures f faults h = faults
  and_then-Ensures f waits h = waits

  -- A load, and a result of the list and queue functions.
  pub load-Ensures :
      (c : Option A) (k : Kernel) (f : A → M B)
      → ((a : A) → c ≡ some a → Ensures Q (f a k))
      → Ensures Q (and_then (elim c [ none ↦ fault | some a ↦ ok a k ]) f)
  load-Ensures none k f h = faults
  load-Ensures (some a) k f h = h a refl

  pub from_option-Ensures :
      (o : Option A) (k : Kernel) (f : A → M B)
      → ((a : A) → o ≡ some a → Ensures Q (f a k))
      → Ensures Q (and_then (from_option o k) f)
  from_option-Ensures none k f h = faults
  from_option-Ensures (some a) k f h = h a refl

module _ {B : Type 0} {Q : B → Kernel → Type 0} where
  pub malloc-Ensures :
      (k : Kernel) (f : Ptr → M B)
      → ((p : Ptr) (later : List Ptr) → Ensures Q (f p (record k { answers = later })))
      → Ensures Q (and_then (malloc k) f)
  unfolding malloc take_answer
  malloc-Ensures k f h = taken k.answers
    where
      taken : (l : List Ptr) → Ensures Q (and_then (take_answer l k) f)
      taken [] = h null k.answers
      taken (p ∷ ps) = h p ps
