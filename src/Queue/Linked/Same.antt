-- ===== src/Queue/Linked/Same.antt =====
-- Each call does to the queue in memory what it does to the list queue, and so does each sequence of
-- calls.
use ez_rtos.Base.{
  length-append, if◌then◌else◌, ℕ, ◌≡◌, refl, sym, ap, ◌∙◌, ◌≢◌, false, none, some, List, [], ◌∷◌,
  ◌++◌, arith, ◌==◌, Ptr, null, add_word, suc, ◌<◌, length, Option, Bool, true, Bool-cases, inl,
  inr, ◌+◌,
}
use mathlib.Core.Option
use ez_rtos.Queue
use ez_rtos.Queue.{Queue}
use ez_rtos.Queue.Linked
use ez_rtos.Queue.Linked.{Store, State, LinkedQueue}
use ez_rtos.Queue.Linked.Chain.{Cell, values}
use ez_rtos.Queue.Linked.Refines.{Represents, new_element-Represents}
use ez_rtos.Queue.Linked.Calls.{
  QueueCall, put_int, put_ptr, take_int, take_ptr, peek_int, peek_ptr, get_type, free_all, of_bool,
  linked_call, listed_call, run_linked, run_listed, IsFresh, IfReached, AreFresh,
}
use ez_rtos.Queue.Linked.Agree.{
  given_address, Agree, fails, returns, same_state, take-Agree, take_ptr-Agree, free-Agree,
  peek-same, get_queue_type-same, free_queue-drain,
}

new_element-null :
    (s : Store) (l : LinkedQueue) (qe : Ptr) (v : ℕ)
    → (qe == null) ≡ true
    → Linked.new_element s l qe v ≡ none
unfolding Linked.new_element
new_element-null s l qe v h = rw h refl

ne-==_false : (a b : ℕ) → (a == b) ≡ false → a ≢ b
ne-==_false a b h e = ground arith

module _ (s : Store) (l : LinkedQueue) (q : Queue) (qe : Ptr) (v : ℕ) where
  abbrev bit_and_state : Bool × State → ℕ × State
  bit_and_state r = (of_bool (r.0), r.1)

  enqueue_int-refused :
      l.is_ptr_queue ≡ true
      → q.is_ptr_queue ≡ true
      → (Linked.enqueue_int s l qe v ≡ some (false, (s, l)))
        × (Queue.enqueue_int q qe v ≡ some (q, false))
  unfolding Linked.enqueue_int Queue.enqueue_int
  enqueue_int-refused h h' = (rw h refl, rw h' refl)

  enqueue_ptr-refused :
      l.is_ptr_queue ≡ false
      → q.is_ptr_queue ≡ false
      → (Linked.enqueue_ptr s l qe v ≡ some (false, (s, l)))
        × (Queue.enqueue_ptr q qe v ≡ some (q, false))
  unfolding Linked.enqueue_ptr Queue.enqueue_ptr
  enqueue_ptr-refused h h' = (rw h refl, rw h' refl)

  abbrev listed_new : Option (Queue × Bool)
  listed_new =
      if qe == null
      then none
      else some (record q { elements = q.elements ++ (v ∷ []); count = add_word q.count 1 }, true)

  enqueue_int-accepted :
      l.is_ptr_queue ≡ false
      → q.is_ptr_queue ≡ false
      → (Linked.enqueue_int s l qe v ≡ Option.map (λ σ. (true, σ)) (Linked.new_element s l qe v))
        × (Queue.enqueue_int q qe v ≡ listed_new)
  unfolding Linked.enqueue_int Queue.enqueue_int
  enqueue_int-accepted h h' = (rw (Linked.enqueue_int, h) refl, rw h' refl)

  enqueue_ptr-accepted :
      l.is_ptr_queue ≡ true
      → q.is_ptr_queue ≡ true
      → (Linked.enqueue_ptr s l qe v ≡ Option.map (λ σ. (true, σ)) (Linked.new_element s l qe v))
        × (Queue.enqueue_ptr q qe v ≡ listed_new)
  unfolding Linked.enqueue_ptr Queue.enqueue_ptr
  enqueue_ptr-accepted h h' = (rw (Linked.enqueue_ptr, h) refl, rw h' refl)

  -- A call that accepts the value, in both models.
  accepted-Agree :
      (c : QueueCall) (cells : List Cell)
      → Represents (s, l) cells q
      → given_address c ≡ qe
      → s qe ≡ none
      → Agree s cells c
          (Option.map bit_and_state (Option.map (λ σ. (true, σ)) (Linked.new_element s l qe v)))
          (Option.map (λ (r : Queue × Bool). (of_bool (r.1), r.0)) listed_new)
  accepted-Agree c cells r e fresh = elim (Bool-cases (qe == null)) [
    | inl failed ↦ rw (new_element-null s l qe v failed, failed) fails
    | inr there ↦
        let (σ, run, r', w) =
          new_element-Represents s l cells q qe v r (ne-==_false qe null there) fresh in
        let longer = length-append cells (record { at = qe; val = v } ∷ []) in
        rw (run, there) (returns 1 _ r' (omega arith) (λ p a n. w p a (λ m. n (m ∙ sym e))))
  ]

-- Each call agrees. The fuel is more than there are elements.
pub call-Agree :
    (n : ℕ) (c : QueueCall) (s : Store) (l : LinkedQueue) (cells : List Cell) (q : Queue)
    → Represents (s, l) cells q
    → length cells < n
    → IsFresh c s
    → Agree s cells c (linked_call n c (s, l)) (listed_call c q)
unfolding linked_call listed_call
call-Agree n (put_int qe v) s l cells q r few fresh = elim (Bool-cases l.is_ptr_queue) [
  | inl t ↦
      let (a, b) = enqueue_int-refused s l q qe v t (r.is_ptr_queue ∙ t) in
      rw (a, b) (same_state s l cells q r (put_int qe v) 0)
  | inr t ↦
      let (a, b) = enqueue_int-accepted s l q qe v t (r.is_ptr_queue ∙ t) in
      rw (a, b) (accepted-Agree s l q qe v (put_int qe v) cells r refl fresh)
]
call-Agree n (put_ptr qe v) s l cells q r few fresh = elim (Bool-cases l.is_ptr_queue) [
  | inl t ↦
      let (a, b) = enqueue_ptr-accepted s l q qe v t (r.is_ptr_queue ∙ t) in
      rw (a, b) (accepted-Agree s l q qe v (put_ptr qe v) cells r refl fresh)
  | inr t ↦
      let (a, b) = enqueue_ptr-refused s l q qe v t (r.is_ptr_queue ∙ t) in
      rw (a, b) (same_state s l cells q r (put_ptr qe v) 0)
]
call-Agree n take_int s l cells q r few fresh = take-Agree take_int s l cells q r
call-Agree n take_ptr s l cells q r few fresh = take_ptr-Agree s l cells q r
call-Agree n peek_int s l cells q r few fresh =
    rw ((peek-same s l cells q r).0) (same_state s l cells q r peek_int (Queue.queue_peek_int q))
call-Agree n peek_ptr s l cells q r few fresh =
    rw ((peek-same s l cells q r).1) (same_state s l cells q r peek_ptr (Queue.queue_peek_ptr q))
call-Agree n get_type s l cells q r few fresh =
    rw (get_queue_type-same s l cells q r)
      (same_state s l cells q r get_type (Queue.get_queue_type q))
call-Agree n free_all s l cells q r few fresh = elim (free-Agree n s l cells q r few) [
  | inl (a, b) ↦ rw (a, free_queue-drain q (values cells) r.elements, b) fails
  | inr (l', q', a, b, r') ↦
      rw (a, free_queue-drain q (values cells) r.elements, b)
        (returns 0 [] r' (omega arith) (λ p x y. refl))
]

-- The rest of a sequence, after calls that agree.
after_call :
    (n : ℕ) (cs : List QueueCall) (s : Store) (cells : List Cell) (c : QueueCall)
    → length cells + suc (length cs) < n
    → ((s' : Store) (l' : LinkedQueue) (left : List Cell) (q' : Queue)
        → Represents (s', l') left q'
        → length left + length cs < n
        → AreFresh n cs (s', l')
        → run_linked n cs (s', l') ≡ run_listed cs q')
    → {x : Option (ℕ × State)} {y : Option (ℕ × Queue)} → Agree s cells c x y
    → IfReached x (λ σ'. AreFresh n cs σ')
    → ◌≡◌ {A = Option (List ℕ)}
        (elim x [ none ↦ none | some (v, σ') ↦ Option.map (λ vs. v ∷ vs) (run_linked n cs σ') ])
        (elim y [ none ↦ none | some (v, q') ↦ Option.map (λ vs. v ∷ vs) (run_listed cs q') ])
after_call n cs s cells c few rest fails f = refl
after_call n cs s cells c few rest (returns {σ} {q} v left r more w) f =
    ap (Option.map (λ vs. v ∷ vs)) (rest (σ.0) (σ.1) left q r (omega (arith, more, few)) f)

-- Every sequence of calls of the queue functions returns the same values on the elements in memory,
-- with their pointers, as on the list of their values, or fails in both: enqueueing and dequeueing
-- of either type, with refusals and with allocations that fail, peeking, reading the type, and
-- freeing the queue. The queue in memory stands for the list at first, an address that malloc
-- returns holds no element at that time, and the fuel of free_queue is more than the elements and
-- the calls together.
pub run_linked-eq-run_listed :
    (n : ℕ) (cs : List QueueCall) (s : Store) (l : LinkedQueue) (cells : List Cell) (q : Queue)
    → Represents (s, l) cells q
    → length cells + length cs < n
    → AreFresh n cs (s, l)
    → run_linked n cs (s, l) ≡ run_listed cs q
unfolding run_linked run_listed
run_linked-eq-run_listed n [] s l cells q r few fresh = refl
run_linked-eq-run_listed n (c ∷ cs) s l cells q r few (now, later) =
    after_call n cs s cells c (omega (arith, few)) (run_linked-eq-run_listed n cs)
      (call-Agree n c s l cells q r (omega (arith, few)) now) later
