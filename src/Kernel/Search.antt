-- ===== src/Kernel/Search.antt =====
-- The search loops over the objects of a module.
use ez_rtos.Base.{
  ◌≡◌, refl, inl, inr, Bool, false, Option, some, List, [], ◌∷◌, arith, ◌==◌, Bool-cases, Ptr, null,
}
use ez_rtos.PtrList.{Node}
use ez_rtos.PtrList.Walk.{first_object, stop_at}
use ez_rtos.Kernel.Run.{update}

abbrev pub last_ptr : Ptr → List Node → Ptr
last_ptr p [] = p
last_ptr p (n ∷ ns) = last_ptr n.ptr ns

module _ {A : Type 0} (cell : Ptr → Option A) (test : A → Bool) where
  -- A write that keeps the result of the test keeps what the search finds.
  pub first_object-update :
      (p : Ptr) (a a' : A) (ns : List Node)
      → cell p ≡ some a
      → test a' ≡ test a
      → first_object (update cell p (some a')) test ns ≡ first_object cell test ns
  unfolding first_object
  first_object-update p a a' [] e t = refl
  first_object-update p a a' (n ∷ ns) e t = elim (Bool-cases (p == n.ptr)) [
    | inl hit ↦ ground (arith, first_object-update p a a' ns e t)
    | inr miss ↦ ground (arith, first_object-update p a a' ns e t)
  ]

  -- Every node holds an object that fails the test.
  abbrev pub NonePasses : List Node → Type 0
  NonePasses [] = Unit
  NonePasses (n ∷ ns) = ((a : A) × (cell n.ptr ≡ some a) × (test a ≡ false)) × NonePasses ns

  -- A search without success ends with no node, and with the last object of the list.
  pub stop_at-NonePasses :
      (last : Ptr) (ns : List Node)
      → NonePasses ns
      → stop_at cell test last ns ≡ some (null, last_ptr last ns)
  unfolding stop_at
  stop_at-NonePasses last [] h = refl
  stop_at-NonePasses last (n ∷ ns) ((a, e, t), h) =
      ground (arith, e, t, stop_at-NonePasses n.ptr ns h)
