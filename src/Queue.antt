-- ===== src/Queue.antt =====
-- p2/rtos/kernel/others/Queue.c: the FIFO queues of waiting tasks, saved priorities and mails. The
-- chain of elements from `head` to `tail` is the list `elements`, oldest first; an element is the
-- word in its union, which is an `int` or a pointer.
pub mod Laws
pub mod Fifo
pub mod Linked
use ez_rtos.Base.{
  ℕ, ◌-◌, Bool, true, false, Option, none, some, List, [], ◌∷◌, ◌++◌, ◌==◌, if◌then◌else◌, Ptr,
  null, add_word,
}

pub record Queue : Type 0 where
  pub elements : List ℕ
  pub count : ℕ
  pub is_ptr_queue : Bool

abbrev pub new_int_queue : Queue
new_int_queue = record { elements = []; count = 0; is_ptr_queue = false }

abbrev pub new_ptr_queue : Queue
new_ptr_queue = record { elements = []; count = 0; is_ptr_queue = true }

unfoldable pub get_queue_type : Queue → ℕ
get_queue_type q = if q.is_ptr_queue then 1 else 0

enqueue : Queue → ℕ → Queue
enqueue q v = record q { elements = q.elements ++ (v ∷ []); count = add_word q.count 1 }

-- `qe` is what `malloc` returned, written through with no check: `none` is a write through NULL. A
-- queue of the other type is refused, and stays as it is.
unfoldable pub enqueue_int : Queue → Ptr → ℕ → Option (Queue × Bool)
unfolding enqueue
enqueue_int q qe v =
    if q.is_ptr_queue
    then some (q, false)
    else if qe == null
    then none
    else some (enqueue q v, true)

unfoldable pub enqueue_ptr : Queue → Ptr → ℕ → Option (Queue × Bool)
unfolding enqueue
enqueue_ptr q qe v =
    if q.is_ptr_queue
    then (if qe == null then none else some (enqueue q v, true))
    else some (q, false)

-- `--q->count`, and 0 once the head is NULL.
pub after_pop : List ℕ → ℕ → ℕ
after_pop [] c = 0
after_pop (_ ∷ _) c = c - 1

-- The element popped, none on the empty queue.
dequeue : Queue → Option ℕ × Queue
unfolding after_pop
dequeue q = elim q.elements [
  | [] ↦ (none, q)
  | v ∷ vs ↦
      if q.count == 0
      then (none, q)
      else (some v, record q { elements = vs; count = after_pop vs q.count })
]

-- 0 or NULL if there is no element. The two functions differ in the type of the result alone, and
-- neither looks at the type of the queue.
unfoldable pub dequeue_int : Queue → ℕ × Queue
unfolding dequeue
dequeue_int q = let (v, q') = dequeue q in (elim v [ none ↦ 0 | some x ↦ x ], q')

unfoldable pub dequeue_ptr : Queue → Ptr × Queue
unfolding dequeue
dequeue_ptr q = let (v, q') = dequeue q in (elim v [ none ↦ null | some x ↦ x ], q')

unfoldable pub queue_peek_int : Queue → ℕ
queue_peek_int q = elim q.elements [ [] ↦ 0 | v ∷ vs ↦ if q.count == 0 then 0 else v ]

unfoldable pub queue_peek_ptr : Queue → Ptr
queue_peek_ptr q = elim q.elements [ [] ↦ null | v ∷ vs ↦ if q.count == 0 then null else v ]

-- `while(q->head) dequeue(q);`, one round for each element. With `count` at 0 and a head that is
-- not NULL the loop would not end: `none`.
pub drain : List ℕ → Queue → Option Queue
unfolding dequeue
drain [] q = some q
drain (_ ∷ vs) q = let (v, q') = dequeue q in elim v [ none ↦ none | some x ↦ drain vs q' ]

unfoldable pub free_queue : Queue → Option Queue
unfolding drain
free_queue q = drain q.elements q
