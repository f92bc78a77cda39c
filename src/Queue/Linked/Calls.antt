-- ===== src/Queue/Linked/Calls.antt =====
-- The calls of the queue functions on a queue in memory and on the list queue.
use ez_rtos.Base.{ℕ, ◌≡◌, Bool, true, false, Option, none, some, List, [], ◌∷◌, Ptr}
use mathlib.Core.Option
use ez_rtos.Queue
use ez_rtos.Queue.{Queue}
use ez_rtos.Queue.Linked
use ez_rtos.Queue.Linked.{Store, State}

-- A new element is at the address that `malloc` returns, which comes first.
pub data QueueCall : Type 0 where
  put_int put_ptr : Ptr → ℕ → QueueCall
  take_int take_ptr peek_int peek_ptr get_type free_all : QueueCall

abbrev pub of_bool : Bool → ℕ
of_bool true = 1
of_bool false = 0

-- The result, 0 where there is none, and the state after. The first argument is the fuel of the
-- loop in `free_queue`.
unfoldable pub linked_call : ℕ → QueueCall → State → Option (ℕ × State)
linked_call n (put_int qe v) (s, l) =
    Option.map (λ r. (of_bool (r.0), r.1)) (Linked.enqueue_int s l qe v)
linked_call n (put_ptr qe v) (s, l) =
    Option.map (λ r. (of_bool (r.0), r.1)) (Linked.enqueue_ptr s l qe v)
linked_call n take_int (s, l) = Linked.dequeue_int s l
linked_call n take_ptr (s, l) = Linked.dequeue_ptr s l
linked_call n peek_int (s, l) = Option.map (λ v. (v, (s, l))) (Linked.queue_peek_int s l)
linked_call n peek_ptr (s, l) = Option.map (λ v. (v, (s, l))) (Linked.queue_peek_ptr s l)
linked_call n get_type (s, l) = some (Linked.get_queue_type l, (s, l))
linked_call n free_all (s, l) = Option.map (λ l'. (0, (s, l'))) (Linked.free_queue n s l)

unfoldable pub listed_call : QueueCall → Queue → Option (ℕ × Queue)
listed_call (put_int qe v) q = Option.map (λ r. (of_bool (r.1), r.0)) (Queue.enqueue_int q qe v)
listed_call (put_ptr qe v) q = Option.map (λ r. (of_bool (r.1), r.0)) (Queue.enqueue_ptr q qe v)
listed_call take_int q = some (Queue.dequeue_int q)
listed_call take_ptr q = some (Queue.dequeue_ptr q)
listed_call peek_int q = some (Queue.queue_peek_int q, q)
listed_call peek_ptr q = some (Queue.queue_peek_ptr q, q)
listed_call get_type q = some (Queue.get_queue_type q, q)
listed_call free_all q = Option.map (λ q'. (0, q')) (Queue.free_queue q)

-- The results of a sequence of calls, none if one of them fails.
unfoldable pub run_linked : ℕ → List QueueCall → State → Option (List ℕ)
run_linked n [] σ = some []
run_linked n (c ∷ cs) σ = elim (linked_call n c σ) [
  | none ↦ none
  | some (v, σ') ↦ Option.map (λ vs. v ∷ vs) (run_linked n cs σ')
]

unfoldable pub run_listed : List QueueCall → Queue → Option (List ℕ)
run_listed [] q = some []
run_listed (c ∷ cs) q = elim (listed_call c q) [
  | none ↦ none
  | some (v, q') ↦ Option.map (λ vs. v ∷ vs) (run_listed cs q')
]

-- What `malloc` promises of its answer to the call: no element is there.
abbrev pub IsFresh : QueueCall → Store → Type 0
IsFresh (put_int qe v) s = s qe ≡ none
IsFresh (put_ptr qe v) s = s qe ≡ none
IsFresh _ s = Unit {0}

-- What holds of the state that a call leaves, if it returns.
abbrev pub IfReached : Option (ℕ × State) → (State → Type 0) → Type 0
IfReached none P = Unit {0}
IfReached (some (_, σ)) P = P σ

-- The same of every call of the sequence that is reached.
abbrev pub AreFresh : ℕ → List QueueCall → State → Type 0
AreFresh n [] σ = Unit {0}
AreFresh n (c ∷ cs) σ = IsFresh c (σ.0) × IfReached (linked_call n c σ) (λ σ'. AreFresh n cs σ')
