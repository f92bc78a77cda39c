-- ===== src/Queue/Laws.antt =====
-- What each operation of others/Queue.c does to the list of elements.
use ez_rtos.Base.{
  ℕ, ◌+◌, ◌-◌, ◌<◌, ◌≡◌, ◌≢◌, true, false, some, List, [], ◌∷◌, ◌++◌, arith, length, Ptr, null,
}
use ez_rtos.Queue.{Queue, enqueue_int, enqueue_ptr, dequeue_int, dequeue_ptr, queue_peek_ptr}

-- `count` is the number of elements, and does not wrap.
pub record IsValid (q : Queue) : Type 0 where
  pub counted : q.count ≡ length q.elements
  pub small : q.count < 65535

-- An element goes to the end of a queue of its type.
pub enqueue_ptr-ptr :
    (q : Queue) (qe : Ptr) (v : ℕ)
    → IsValid q
    → q.is_ptr_queue ≡ true
    → qe ≢ null
    → enqueue_ptr q qe v
      ≡ some (record q { elements = q.elements ++ (v ∷ []); count = q.count + 1 }, true)
unfolding enqueue_ptr
enqueue_ptr-ptr q qe v i t n = ground arith

pub enqueue_int-int :
    (q : Queue) (qe : Ptr) (v : ℕ)
    → IsValid q
    → q.is_ptr_queue ≡ false
    → qe ≢ null
    → enqueue_int q qe v
      ≡ some (record q { elements = q.elements ++ (v ∷ []); count = q.count + 1 }, true)
unfolding enqueue_int
enqueue_int-int q qe v i t n = ground arith

-- The oldest element leaves.
pub dequeue_ptr-cons :
    (q : Queue) (v : ℕ) (vs : List ℕ)
    → IsValid q
    → q.elements ≡ v ∷ vs
    → dequeue_ptr q ≡ (v, record q { elements = vs; count = q.count - 1 })
unfolding dequeue_ptr
dequeue_ptr-cons q v [] i e = ground arith
dequeue_ptr-cons q v (w ∷ vs) i e = ground arith

pub dequeue_ptr-nil : (q : Queue) → q.elements ≡ [] → dequeue_ptr q ≡ (null, q)
unfolding dequeue_ptr
dequeue_ptr-nil q e = ground arith

pub dequeue_int-eq-dequeue_ptr : (q : Queue) → dequeue_int q ≡ dequeue_ptr q
unfolding dequeue_int dequeue_ptr
dequeue_int-eq-dequeue_ptr q = ground arith

pub queue_peek_ptr-cons :
    (q : Queue) (v : ℕ) (vs : List ℕ) → IsValid q → q.elements ≡ v ∷ vs → queue_peek_ptr q ≡ v
unfolding queue_peek_ptr
queue_peek_ptr-cons q v vs i e = ground arith

pub queue_peek_ptr-nil : (q : Queue) → q.elements ≡ [] → queue_peek_ptr q ≡ null
unfolding queue_peek_ptr
queue_peek_ptr-nil q e = ground arith
