-- ===== src/Queue/Linked.antt =====
-- p2/rtos/kernel/others/Queue.c again, on the elements in memory: each function reads and writes the
-- fields of the queue and of the elements as the code does. `none` is an access through a pointer
-- to no element, or a loop with too little fuel.
pub mod Chain
pub mod Refines
pub mod Calls
pub mod Agree
pub mod Same
use mathlib.Core.Option
use ez_rtos.Base.{
  ℕ, zero, suc, ◌-◌, Bool, true, false, ◌||◌, Option, none, some, map, ◌==◌, if◌then◌else◌, Ptr,
  null, add_word,
}

-- `val` is the word in the union.
pub record Element : Type 0 where
  pub val : ℕ
  pub next : Ptr

abbrev pub Store : Type 0
Store = Ptr → Option Element

abbrev pub write : Store → Ptr → Option Element → Store
write s p c q = if p == q then c else s q

pub record LinkedQueue : Type 0 where
  pub head : Ptr
  pub tail : Ptr
  pub count : ℕ
  pub is_ptr_queue : Bool

abbrev pub State : Type 0
State = Store × LinkedQueue

new_queue : Bool → LinkedQueue
new_queue t = record { head = null; tail = null; count = 0; is_ptr_queue = t }

unfoldable pub new_int_queue : LinkedQueue
unfolding new_queue
new_int_queue = new_queue false

unfoldable pub new_ptr_queue : LinkedQueue
unfolding new_queue
new_ptr_queue = new_queue true

unfoldable pub get_queue_type : LinkedQueue → ℕ
get_queue_type q = if q.is_ptr_queue then 1 else 0

-- `p->next = next`.
unfoldable pub set_next : Store → Ptr → Ptr → Option Store
set_next s p next = Option.map (λ e. write s p (some (record e { next = next }))) (s p)

unfoldable pub enqueue : Store → LinkedQueue → Ptr → Option State
enqueue s q qe =
    let q' = record q { tail = qe; count = add_word q.count 1 } in
    if q.head == null
    then some (s, record q' { head = qe })
    else Option.map (λ s'. (s', q')) (set_next s q.tail qe)

-- The new element at `qe`, which is what `malloc` returned.
unfoldable pub new_element : Store → LinkedQueue → Ptr → ℕ → Option State
unfolding enqueue
new_element s q qe v =
    if qe == null then none else enqueue (write s qe (some (record { val = v; next = null }))) q qe

-- 0 for a queue of the other type.
unfoldable pub enqueue_int : Store → LinkedQueue → Ptr → ℕ → Option (Bool × State)
unfolding new_element
enqueue_int s q qe p =
    if q.is_ptr_queue
    then some (false, (s, q))
    else Option.map (λ r. (true, r)) (new_element s q qe p)

unfoldable pub enqueue_ptr : Store → LinkedQueue → Ptr → ℕ → Option (Bool × State)
unfolding new_element
enqueue_ptr s q qe p =
    if q.is_ptr_queue
    then Option.map (λ r. (true, r)) (new_element s q qe p)
    else some (false, (s, q))

-- The element that leaves, or NULL. It is not freed here.
unfoldable pub dequeue : Store → LinkedQueue → Option (Ptr × LinkedQueue)
dequeue s q =
    if q.head == null || q.count == 0
    then some (null, q)
    else Option.map
        (λ e. (
          q.head,
          if e.next == null
              then record q { head = e.next; tail = null; count = 0 }
              else record q { head = e.next; count = q.count - 1 },
        ))
        (s q.head)

-- The value of the element `qe`, which is freed.
unfoldable pub take_value : Store → Ptr × LinkedQueue → Option (ℕ × State)
take_value s (qe, q) =
    if qe == null then some (0, (s, q)) else Option.map (λ e. (e.val, (write s qe none, q))) (s qe)

unfoldable pub dequeue_int : Store → LinkedQueue → Option (ℕ × State)
dequeue_int s q = elim (dequeue s q) [ none ↦ none | some r ↦ take_value s r ]

unfoldable pub dequeue_ptr : Store → LinkedQueue → Option (Ptr × State)
dequeue_ptr s q = elim (dequeue s q) [ none ↦ none | some r ↦ take_value s r ]

abbrev pub queue_peek : LinkedQueue → Ptr
queue_peek q = q.head

unfoldable pub queue_peek_int : Store → LinkedQueue → Option ℕ
queue_peek_int s q =
    if queue_peek q == null || q.count == 0
    then some 0
    else Option.map (λ e. e.val) (s (queue_peek q))

unfoldable pub queue_peek_ptr : Store → LinkedQueue → Option Ptr
queue_peek_ptr s q =
    if queue_peek q == null || q.count == 0
    then some null
    else Option.map (λ e. e.val) (s (queue_peek q))

-- `while(q->head) dequeue(q);` on fuel. The elements stay allocated.
unfoldable pub free_queue : ℕ → Store → LinkedQueue → Option LinkedQueue
unfolding dequeue
free_queue zero s q = none
free_queue (suc n) s q = elim (q.head == null) [
  | true ↦ some q
  | false ↦ elim (dequeue s q) [ none ↦ none | some (_, q') ↦ free_queue n s q' ]
]
