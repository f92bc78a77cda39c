-- ===== src/PtrList/Walk.antt =====
-- The search loops that the kernel modules write over a list of objects,
-- `for(i = &List; i; i = i->next)`. `cell` is the memory of the objects; an object at no cell
-- (NULL, for the empty list) is a fault, `none`.
use ez_rtos.Base.{Bool, Option, none, some, List, [], ◌∷◌, Ptr, null, if◌then◌else◌}
use ez_rtos.PtrList.{Node}

module _ {A : Type 0} (cell : Ptr → Option A) (test : A → Bool) where
  -- The first object that passes the test, NULL if there is none.
  unfoldable pub first_object : List Node → Option Ptr
  first_object [] = some null
  first_object (n ∷ ns) =
      let rest = first_object ns in
      elim (cell n.ptr) [ none ↦ none | some a ↦ if test a then some n.ptr else rest ]

  -- The loops of the destroy functions, which leave both variables set: the node where the search
  -- stopped (NULL at the end), and the object that was looked at last.
  unfoldable pub stop_at : Ptr → List Node → Option (Ptr × Ptr)
  stop_at last [] = some (null, last)
  stop_at last (n ∷ ns) =
      let rest = stop_at n.ptr ns in
      elim (cell n.ptr) [ none ↦ none | some a ↦ if test a then some (n.addr, n.ptr) else rest ]
