-- ===== src/Examples/Queues.antt =====
-- The theorem on the queues in memory, at three pointers, one of which is taken out.
use ez_rtos.Base.{◌≡◌, refl, none, some, List, [], ◌∷◌, arith}
use ez_rtos.Queue
use ez_rtos.Queue.{new_ptr_queue}
use ez_rtos.Queue.Linked
use ez_rtos.Queue.Linked.{Store, LinkedQueue}
use ez_rtos.Queue.Linked.Refines.{Represents}
use ez_rtos.Queue.Linked.Calls.{
  QueueCall, put_int, put_ptr, take_ptr, peek_ptr, get_type, free_all, linked_call, listed_call,
  run_linked, run_listed,
}
use ez_rtos.Queue.Linked.Same.{run_linked-eq-run_listed}

abbrev no_elements : Store
no_elements = λ _. none

new_ptr_queue-Represents : Represents (no_elements, Linked.new_ptr_queue) [] new_ptr_queue
unfolding Linked.new_ptr_queue
new_ptr_queue-Represents = record {
  chain = tt;
  head = refl;
  tail = refl;
  elements = refl;
  count = refl;
  is_ptr_queue = refl;
}

-- The address 900 is used again once its element is freed, and an `int` is refused.
abbrev calls : List QueueCall
calls =
    put_ptr 900 7
    ∷ put_ptr 910 8
    ∷ take_ptr
    ∷ put_ptr 900 9
    ∷ put_int 920 3
    ∷ peek_ptr
    ∷ get_type
    ∷ free_all
    ∷ take_ptr
    ∷ []

run_linked-eq-run_listed_example :
    run_linked 20 calls (no_elements, Linked.new_ptr_queue) ≡ run_listed calls new_ptr_queue
unfolding linked_call Linked.new_ptr_queue Linked.enqueue_ptr Linked.enqueue_int Linked.dequeue_ptr
    Linked.enqueue Linked.dequeue Linked.set_next Linked.queue_peek_ptr Linked.get_queue_type
    Linked.free_queue Linked.take_value Linked.new_element
run_linked-eq-run_listed_example =
    run_linked-eq-run_listed 20 calls no_elements Linked.new_ptr_queue [] new_ptr_queue
      new_ptr_queue-Represents (omega arith)
      (refl, (refl, (tt, (refl, (refl, (tt, (tt, (tt, (tt, tt)))))))))

run_listed-calls : run_listed calls new_ptr_queue ≡ some (1 ∷ 1 ∷ 7 ∷ 1 ∷ 0 ∷ 8 ∷ 1 ∷ 0 ∷ 0 ∷ [])
unfolding run_listed listed_call Queue.enqueue_ptr Queue.enqueue_int Queue.dequeue_ptr
    Queue.queue_peek_ptr Queue.get_queue_type Queue.free_queue
run_listed-calls = refl
