-- ===== src/Queue/Linked/Agree.antt =====
-- What it means that a call does the same to the queue in memory and to the list queue, and that the
-- calls that take or read elements do.
use ez_rtos.Base.{
  ◌||◌, ℕ, ◌≡◌, refl, sym, ap, ◌∙◌, false, none, some, List, [], ◌∷◌, arith, ◌==◌, ==_ne, Ptr, null,
  zero, suc, ◌<◌, length, Option, true, Bool-cases, inl, inr, ◌⊎◌,
}
use ez_rtos.Queue
use ez_rtos.Queue.{Queue}
use ez_rtos.Queue.Linked
use ez_rtos.Queue.Linked.{Store, State, LinkedQueue}
use ez_rtos.Queue.Linked.Chain.{Cell, values, first}
use ez_rtos.Queue.Linked.Refines.{
  Represents, IsWithin, popped, dequeue-Represents, take_value-Represents,
}
use ez_rtos.Queue.Linked.Calls.{QueueCall, put_int, put_ptr, take_ptr}

-- The address that the call may write besides the queue's elements.
abbrev pub given_address : QueueCall → Ptr
given_address (put_int qe v) = qe
given_address (put_ptr qe v) = qe
given_address _ = null

-- Both fail, or both return the same value and queues that still correspond, and the memory of
-- others is as before.
pub data Agree (s : Store) (cells : List Cell) (c : QueueCall)
    : Option (ℕ × State) → Option (ℕ × Queue) → Type 0 where
  fails : Agree s cells c none none
  returns :
      {σ : State} {q : Queue} (v : ℕ) (left : List Cell)
      → Represents σ left q
      → length left < suc (suc (length cells))
      → IsWithin s cells (given_address c) (σ.0)
      → Agree s cells c (some (v, σ)) (some (v, q))

dequeue_int-some :
    (s : Store) (l : LinkedQueue) (p : Ptr) (l' : LinkedQueue)
    → Linked.dequeue s l ≡ some (p, l')
    → Linked.dequeue_int s l ≡ Linked.take_value s (p, l')
unfolding Linked.dequeue_int
dequeue_int-some s l p l' h = rw (Linked.dequeue_int, h) refl

dequeue_nothing :
    (s : Store) (l : LinkedQueue)
    → (l.head == null || l.count == 0) ≡ true
    → Linked.dequeue_int s l ≡ some (0, (s, l))
unfolding Linked.dequeue Linked.take_value
dequeue_nothing s l h = dequeue_int-some s l null l (rw h refl)

dequeue_int-nothing :
    (q : Queue) → (q.elements ≡ []) ⊎ ((q.count == 0) ≡ true) → Queue.dequeue_int q ≡ (0, q)
unfolding Queue.dequeue_int
dequeue_int-nothing q h = ground arith

dequeue_int-cons :
    (q : Queue) (v : ℕ) (vs : List ℕ)
    → (q.count == 0) ≡ false
    → q.elements ≡ v ∷ vs
    → Queue.dequeue_int q ≡ (v, popped q vs)
unfolding Queue.dequeue_int
dequeue_int-cons q v vs n h = ground arith

module _ (s : Store) (l : LinkedQueue) (cells : List Cell) (q : Queue)
    (r : Represents (s, l) cells q) where
  pub same_state : (c : QueueCall) (v : ℕ) → Agree s cells c (some (v, (s, l))) (some (v, q))
  same_state c v = returns v cells r (omega arith) (λ p a n. refl)

pub take-Agree :
    (c : QueueCall) (s : Store) (l : LinkedQueue) (cells : List Cell) (q : Queue)
    → Represents (s, l) cells q
    → Agree s cells c (Linked.dequeue_int s l) (some (Queue.dequeue_int q))
take-Agree c s l [] q r =
    rw (dequeue_nothing s l (rw r.head refl), dequeue_int-nothing q (inl r.elements))
      (same_state s l [] q r c 0)
take-Agree c s l (d ∷ ds) q r = elim (Bool-cases (q.count == 0)) [
  | inl none_left ↦
      rw (dequeue_nothing s l (ground arith), dequeue_int-nothing q (inr none_left))
        (same_state s l (d ∷ ds) q r c 0)
  | inr more ↦
      let (l', run, r') = dequeue-Represents s l d ds q r more in
      let (taken, freed) =
        take_value-Represents s l' d ds (popped q (values ds)) (r.chain.0) (r.chain.1) (r.chain.2)
          r' in
      rw
        (
          dequeue_int-some s l d.at l' run,
          taken,
          dequeue_int-cons q d.val (values ds) more r.elements,
        )
        (returns d.val ds freed (omega arith) (λ p a n. ground arith))
]

pub take_ptr-Agree :
    (s : Store) (l : LinkedQueue) (cells : List Cell) (q : Queue)
    → Represents (s, l) cells q
    → Agree s cells take_ptr (Linked.dequeue_ptr s l) (some (Queue.dequeue_ptr q))
unfolding Linked.dequeue_ptr Linked.dequeue_int Queue.dequeue_ptr Queue.dequeue_int
take_ptr-Agree s l cells q r = take-Agree take_ptr s l cells q r

-- With elements that are not counted the loop of `free_queue` does not end.
free_queue-stuck :
    (n : ℕ) (s : Store) (l : LinkedQueue)
    → (l.head == null) ≡ false
    → (l.count == 0) ≡ true
    → Linked.free_queue n s l ≡ none
unfolding Linked.free_queue Linked.dequeue
free_queue-stuck zero s l used h = refl
free_queue-stuck (suc n) s l used h =
    let again : Linked.dequeue s l ≡ some (null, l) = rw (Linked.dequeue, used, h) refl in
    rw (Linked.free_queue, used, again) (free_queue-stuck n s l used h)

dequeue-none : (q : Queue) → (q.count == 0) ≡ true → Queue.dequeue q ≡ (none, q)
unfolding Queue.dequeue
dequeue-none q h = ground arith

dequeue-cons :
    (q : Queue) (v : ℕ) (vs : List ℕ)
    → (q.count == 0) ≡ false
    → q.elements ≡ v ∷ vs
    → Queue.dequeue q ≡ (some v, popped q vs)
unfolding Queue.dequeue
dequeue-cons q v vs n h = ground arith

-- `free_queue` on fuel for more rounds than there are cells.
pub free-Agree :
    (n : ℕ) (s : Store) (l : LinkedQueue) (cells : List Cell) (q : Queue)
    → Represents (s, l) cells q
    → length cells < n
    → ((Linked.free_queue n s l ≡ none) × (Queue.drain (values cells) q ≡ none))
      ⊎ ((l' : LinkedQueue) × (q' : Queue) × (Linked.free_queue n s l ≡ some l')
          × (Queue.drain (values cells) q ≡ some q')
          × Represents (s, l') [] q')
unfolding Linked.free_queue Queue.drain
free-Agree zero s l cells q r h = absurd (omega (arith, h))
free-Agree (suc n) s l [] q r h = inr (l, q, rw r.head refl, refl, r)
free-Agree (suc n) s l (c ∷ cs) q r h =
    let used : (l.head == null) ≡ false = ==_ne l.head null (λ e. r.chain.0 (sym r.head ∙ e)) in
    elim (Bool-cases (q.count == 0)) [
      | inl none_left ↦ inl (
        free_queue-stuck (suc n) s l used (ap (λ c. c == 0) (sym r.count) ∙ none_left),
        rw (Queue.drain, dequeue-none q none_left) refl,
      )
      | inr more ↦
          let (l', run, r') = dequeue-Represents s l c cs q r more in
          let listed : Queue.dequeue q ≡ (some c.val, popped q (values cs)) =
            dequeue-cons q c.val (values cs) more r.elements in
          let freed : Linked.free_queue (suc n) s l ≡ Linked.free_queue n s l' =
            rw (Linked.free_queue, used, run) refl in
          let drained : Queue.drain (c.val ∷ values cs) q
              ≡ Queue.drain (values cs) (popped q (values cs)) =
            ap (λ r. elim (r.0) [ none ↦ none | some _ ↦ Queue.drain (values cs) (r.1) ]) listed in
          rw (freed, drained) (free-Agree n s l' cs (popped q (values cs)) r' (omega arith))
    ]

pub peek-same :
    (s : Store) (l : LinkedQueue) (cells : List Cell) (q : Queue)
    → Represents (s, l) cells q
    → (Linked.queue_peek_int s l ≡ some (Queue.queue_peek_int q))
      × (Linked.queue_peek_ptr s l ≡ some (Queue.queue_peek_ptr q))
unfolding Linked.queue_peek_int Linked.queue_peek_ptr Queue.queue_peek_int Queue.queue_peek_ptr
peek-same s l [] q r = (ground arith, ground arith)
peek-same s l (c ∷ cs) q r =
    let used : (l.head == null) ≡ false = ==_ne l.head null (λ e. r.chain.0 (sym r.head ∙ e)) in
    let oldest : s l.head ≡ some (record { val = c.val; next = first cs }) =
      ap s r.head ∙ r.chain.2 in
    (ground arith, ground arith)

pub get_queue_type-same :
    (s : Store) (l : LinkedQueue) (cells : List Cell) (q : Queue)
    → Represents (s, l) cells q
    → Linked.get_queue_type l ≡ Queue.get_queue_type q
unfolding Linked.get_queue_type Queue.get_queue_type
get_queue_type-same s l cells q r = rw r.is_ptr_queue refl

pub free_queue-drain :
    (q : Queue) (vs : List ℕ) → q.elements ≡ vs → Queue.free_queue q ≡ Queue.drain vs q
unfolding Queue.free_queue
free_queue-drain q vs h = rw (Queue.free_queue, h) refl
