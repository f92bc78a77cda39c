-- ===== src/Queue/Fifo.antt =====
-- Putting pointers into a queue and taking them out, with the functions of others/Queue.c.
use mathlib.Core.List.{append_assoc, append-nil}
use ez_rtos.Base.{
  ℕ, zero, suc, ◌+◌, ◌-◌, ◌<◌, ◌≡◌, refl, sym, ap, ◌∙◌, ◌≢◌, true, Option, none, some, List, [],
  ◌∷◌, ◌++◌, arith, length, length-append, Ptr, null,
}
use ez_rtos.Queue.{Queue, new_ptr_queue, enqueue_ptr, dequeue_ptr}
use ez_rtos.Queue.Laws.{enqueue_ptr-ptr, dequeue_ptr-cons}

-- Pointers put into a queue one after the other, each in an element at `qe`.
unfoldable pub enqueue_each : Ptr → List Ptr → Queue → Option Queue
enqueue_each qe [] q = some q
enqueue_each qe (p ∷ ps) q = elim (enqueue_ptr q qe p) [
  | none ↦ none
  | some (q', _) ↦ enqueue_each qe ps q'
]

-- As many pointers taken out of it.
unfoldable pub dequeue_each : ℕ → Queue → List Ptr × Queue
dequeue_each zero q = ([], q)
dequeue_each (suc n) q =
    let (p, q') = dequeue_ptr q in let (ps, last) = dequeue_each n q' in (p ∷ ps, last)

abbrev pub holding : Queue → List Ptr → Queue
holding q ps = record q { elements = ps; count = length ps }

enqueue_each-holding :
    (qe : Ptr) (q : Queue) (xs ps : List Ptr)
    → qe ≢ null
    → q.is_ptr_queue ≡ true
    → length xs + length ps < 65535
    → enqueue_each qe ps (holding q xs) ≡ some (holding q (xs ++ ps))
unfolding enqueue_each
enqueue_each-holding qe q xs [] n t h = ap (λ ys. some (holding q ys)) (sym (append-nil xs))
enqueue_each-holding qe q xs (p ∷ ps) n t h =
    let more = length-append xs (p ∷ []) in
    let step : enqueue_ptr (holding q xs) qe p ≡ some (holding q (xs ++ (p ∷ [])), true) =
      enqueue_ptr-ptr (holding q xs) qe p (record { counted = refl; small = omega arith }) t n
      ∙ ap (λ c. some (record q { elements = xs ++ (p ∷ []); count = c }, true)) (sym more) in
    rw (enqueue_each, step)
      (enqueue_each-holding qe q (xs ++ (p ∷ [])) ps n t (omega arith)
        ∙ ap (λ ys. some (holding q ys)) (append_assoc xs (p ∷ []) ps))

dequeue_each-holding :
    (q : Queue) (ps : List Ptr)
    → length ps < 65535
    → dequeue_each (length ps) (holding q ps) ≡ (ps, holding q [])
unfolding dequeue_each
dequeue_each-holding q [] h = refl
dequeue_each-holding q (p ∷ ps) h =
    let c : suc (length ps) - 1 ≡ length ps = omega arith in
    rw
      (
        dequeue_ptr-cons (holding q (p ∷ ps)) p ps (record { counted = refl; small = h }) refl,
        c,
        dequeue_each-holding q ps (omega arith),
      )
      refl

-- Fewer than 65535 pointers put one by one into a new pointer queue, with allocations that succeed,
-- are taken out of it again in the same order, and the queue is then as new.
pub dequeue_each-enqueue_each :
    (qe : Ptr) (ps : List Ptr)
    → qe ≢ null
    → length ps < 65535
    → (q : Queue) × (enqueue_each qe ps new_ptr_queue ≡ some q)
      × (dequeue_each (length ps) q ≡ (ps, new_ptr_queue))
dequeue_each-enqueue_each qe ps n h = (
  holding new_ptr_queue ps,
  enqueue_each-holding qe new_ptr_queue [] ps n refl (omega arith),
  dequeue_each-holding new_ptr_queue ps h,
)
