-- ===== src/Kernel/ForEach.antt =====
-- Loops that change every process descriptor of a list of nodes in the same way, and what they make
-- of the memory.
use ez_rtos.Base.{◌≡◌, refl, ap, ◌∙◌, false, Option, some, List, [], ◌∷◌, arith, if◌then◌else◌, Ptr}
use ez_rtos.PtrList.{Node, holds}
use ez_rtos.Kernel.Types.{Pd}
use ez_rtos.Kernel.State.{Kernel}
use ez_rtos.Kernel.Run.{M, ◌>>=◌, ◌>>◌, done, update, load_pd, store_pd, ok}
use mathlib.Core.Path.{fun_ext}
use mathlib.Core.Option

-- The nodes hold different descriptors, all of them in memory.
abbrev pub AreTasks : (Ptr → Option Pd) → List Node → Type 0
AreTasks cell [] = Unit
AreTasks cell (n ∷ ns) =
    ((d : Pd) × (cell n.ptr ≡ some d)) × (holds ns n.ptr ≡ false) × AreTasks cell ns

abbrev pub with_tasks : Kernel → (Ptr → Option Pd) → Kernel
with_tasks k cell = record k { tasks = record (k.tasks) { cell = cell } }

module _ (f : Pd → Pd) where
  unfoldable pub for_each : List Node → M (Unit {0})
  for_each [] = done
  for_each (n ∷ ns) = do d ← load_pd n.ptr; store_pd n.ptr (some (f d)); for_each ns

  -- Every descriptor of the list changed, the others as they were.
  abbrev pub mapped : List Node → (Ptr → Option Pd) → Ptr → Option Pd
  mapped ns cell p = if holds ns p then Option.map f (cell p) else cell p

  mapped-cons :
      (n : Node) (ns : List Node) (cell : Ptr → Option Pd) (d : Pd)
      → cell n.ptr ≡ some d
      → holds ns n.ptr ≡ false
      → mapped ns (update cell n.ptr (some (f d))) ≡ mapped (n ∷ ns) cell
  mapped-cons n ns cell d e h = fun_ext λ p. mapped_at p
    where
      mapped_at : (p : Ptr) → mapped ns (update cell n.ptr (some (f d))) p ≡ mapped (n ∷ ns) cell p
      mapped_at p = ground arith

  AreTasks-update :
      (ns : List Node) (cell : Ptr → Option Pd) (p : Ptr) (d : Pd)
      → holds ns p ≡ false
      → AreTasks cell ns
      → AreTasks (update cell p (some d)) ns
  AreTasks-update [] cell p d h a = tt
  AreTasks-update (n ∷ ns) cell p d h (e, o, a) =
      ((e.0, ground (arith, e.1)), o, AreTasks-update ns cell p d (ground arith) a)

  for_each-cons :
      (n : Node) (ns : List Node) (k : Kernel) (d : Pd)
      → k.tasks.cell n.ptr ≡ some d
      → for_each (n ∷ ns) k ≡ for_each ns (with_tasks k (update k.tasks.cell n.ptr (some (f d))))
  unfolding for_each
  for_each-cons n ns k d e = ground arith

  pub for_each-mapped :
      (ns : List Node) (k : Kernel)
      → AreTasks k.tasks.cell ns
      → for_each ns k ≡ ok tt (with_tasks k (mapped ns k.tasks.cell))
  unfolding for_each
  for_each-mapped [] k a = refl
  for_each-mapped (n ∷ ns) k ((d, e), o, a) =
      for_each-cons n ns k d e
      ∙ for_each-mapped ns (with_tasks k (update k.tasks.cell n.ptr (some (f d))))
          (AreTasks-update ns k.tasks.cell n.ptr (f d) o a)
      ∙ ap (λ c. ok tt (with_tasks k c)) (mapped-cons n ns k.tasks.cell d e o)
