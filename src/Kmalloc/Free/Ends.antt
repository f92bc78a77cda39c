-- ===== src/Kmalloc/Free/Ends.antt =====
-- The loops along the free list.
use mathlib.Core.Option
use ez_rtos.Kmalloc.{Heap, pointer_is_valid, fits_better, find_pieces, kmalloc}
use ez_rtos.Kmalloc.Free.{find_neighbours, kfree}
use ez_rtos.Base.{
  ℕ, zero, suc, ◌<◌, ◌≡◌, refl, ◌≢◌, Bool, true, false, Option, none, some, List, [], ◌∷◌, arith,
  ltb, ◌==◌, if◌then◌else◌, length, Ptr, null, sub_word,
}

-- The free list from `p` is the pieces `qs`, and ends.
abbrev pub IsChain : Heap → Ptr → List Ptr → Type 0
IsChain h p [] = p ≡ null
IsChain h p (q ∷ qs) = (p ≡ q) × (q ≢ null) × IsChain h (h.header q).next qs

-- A loop that has not used up its fuel.
abbrev pub Ended : {A : Type 0} → Option A → Type 0
Ended {A = A} o = (a : A) × (o ≡ some a)

module _ {A : Type 0} where
  if_Ended :
      (b : Bool) (x y : Option A)
      → (b ≡ true → Ended x)
      → (b ≡ false → Ended y)
      → Ended (if b then x else y)
  if_Ended true x y h h' = h refl
  if_Ended false x y h h' = h' refl

  map-Ended : {B : Type 0} (f : A → B) (o : Option A) → Ended o → Ended (Option.map f o)
  map-Ended f none (a, e) = absurd cc
  map-Ended f (some a) h = (f a, refl)

null_found : (p : Ptr) → p ≡ null → ¬ ((p == null) ≡ false)
null_found p e f = ground arith

find_pieces-ends :
    (n len current_piece previous_piece next_smallest_piece : ℕ) (h : Heap) (qs : List Ptr)
    → IsChain h current_piece qs
    → length qs < n
    → Ended (find_pieces n len current_piece previous_piece next_smallest_piece h)
unfolding find_pieces
find_pieces-ends zero len cur prev small h qs c l = absurd (omega (arith, l))
find_pieces-ends (suc n) len cur prev small h [] c l =
    if_Ended (cur == null) _ _ (λ _. (_, refl)) (λ f. absurd (null_found cur c f))
find_pieces-ends (suc n) len cur prev small h (q ∷ qs) (e, ne, c) l =
    let next = (h.header cur).next in
    let smallest = if fits_better len cur small h then cur else small in
    let rest = find_pieces-ends n len next next smallest h qs (rw e c) (omega (arith, l)) in
    if_Ended (cur == null) _ _ (λ _. (_, refl))
      λ _. if_Ended ((h.header cur).size == len) _ _ (λ _. (_, refl)) (λ _. rest)

find_neighbours-ends :
    (n : ℕ) (p_entry current_piece closest_left closest_left_prev : Ptr) (h : Heap) (qs : List Ptr)
    → IsChain h current_piece qs
    → length qs < n
    → Ended (find_neighbours n p_entry current_piece closest_left closest_left_prev h)
unfolding find_neighbours
find_neighbours-ends zero p cur left before h qs c l = absurd (omega (arith, l))
find_neighbours-ends (suc n) p cur left before h [] c l =
    if_Ended (cur == null) _ _ (λ _. (_, refl)) (λ f. absurd (null_found cur c f))
find_neighbours-ends (suc n) p cur left before h (q ∷ qs) (e, ne, c) l =
    let rest =
      find_neighbours-ends n p (h.header cur).next cur left h qs (rw e c) (omega (arith, l)) in
    if_Ended (cur == null) _ _ (λ _. (_, refl))
      λ _.
        if_Ended (ltb p cur) _ _ (λ _. rest)
          λ _. if_Ended (ltb cur p) _ _ (λ _. (_, refl)) (λ _. (_, refl))

-- When the free list ends, with fewer pieces than the fuel, the loops of kmalloc and kfree end,
-- whatever block is asked for or freed.
pub kmalloc-ends :
    (n len : ℕ) (p : Ptr) (h : Heap) (qs : List Ptr)
    → IsChain h h.param.freelist_head qs
    → length qs < n
    → ((r : Ptr × Heap) × (kmalloc n len h ≡ some r)) × ((h' : Heap) × (kfree n p h ≡ some h'))
unfolding kmalloc kfree
kmalloc-ends n len p h qs c l = (
  map-Ended _ _ (find_pieces-ends n len h.param.freelist_head null null h qs c l),
  if_Ended (pointer_is_valid p h) _ _
      (λ _.
        map-Ended _ _
          (find_neighbours-ends n (sub_word p 4) h.param.freelist_head null null h qs c l))
      (λ _. (h, refl)),
)
