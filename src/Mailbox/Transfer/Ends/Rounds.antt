-- ===== src/Mailbox/Transfer/Ends/Rounds.antt =====
-- The rounds of the two loops over the waiting tasks, and the loops.
use ez_rtos.Mailbox.Transfer.{
  send_with, recv_with, wake_sender, send_round, wake_receiver, recv_round, send_from_queue,
  recv_from_queue,
}
use ez_rtos.Mailbox.Transfer.Ends.{Keeps, send_with-Keeps, recv_with-Keeps}
use ez_rtos.Mailbox.Sound.{Sound, Sound-same, Sound-set, Sound-few, dequeue_ptr-IsValid}
use ez_rtos.Queue.{Queue, dequeue_ptr}
use ez_rtos.Kernel.Objects.{Mailbox}
use ez_rtos.Kernel.State.{Kernel}
use ez_rtos.Kernel.Types.{ProcessState, is_wait_mailbox}
use ez_rtos.Kernel.Run.{M, ◌>>◌, set_cell, set_state}
use ez_rtos.Base.{
  ℕ, zero, suc, ◌+◌, ◌≤◌, ◌<◌, ◌≡◌, refl, true, ◌&&◌, some, List, [], ◌∷◌, arith, ltb, &&_left,
  length, Ptr,
}
use ez_rtos.Queue.Laws.{IsValid, dequeue_ptr-cons}
use ez_rtos.Kernel.Ensures.{if_Ensures, weaken, and_then-Ensures, load-Ensures, returns}

-- A queue with an element has one fewer once it is dequeued.
dequeue_ptr-fewer :
    (q : Queue) → IsValid q → ltb 0 q.count ≡ true → suc (dequeue_ptr q).1.count ≡ q.count
dequeue_ptr-fewer q i h = fewer q.elements refl
  where
    positive : (n : ℕ) → ltb 0 n ≡ true → 0 < n
    positive n e = ground arith

    fewer : (l : List ℕ) → q.elements ≡ l → suc (dequeue_ptr q).1.count ≡ q.count
    fewer [] e =
        let none_left : length q.elements ≡ 0 = rw e refl in
        absurd (omega (arith, positive q.count h, i.counted, none_left))
    fewer (v ∷ vs) e =
        let all : length q.elements ≡ suc (length vs) = rw e refl in
        rw (dequeue_ptr-cons q v vs i e) (omega (arith, i.counted, all))

module _ (w : ℕ) (mb : Ptr) (k : Kernel) (m : Mailbox) (h : Sound (suc w) mb k)
    (e : k.mailboxes.cell mb ≡ some m) where
  -- A box that has lost its oldest sender or receiver.
  Sound-sender :
      ltb 0 m.send_queue.count ≡ true
      → Sound w mb (record k {
        mailboxes =
            set_cell k.mailboxes mb (some (record m { send_queue = (dequeue_ptr m.send_queue).1 }));
      })
  Sound-sender some_wait =
      let s = h.boxes mb m e in
      let (valid, _) = dequeue_ptr-IsValid m.send_queue s.senders in
      let fewer = dequeue_ptr-fewer m.send_queue s.senders some_wait in
      Sound-set (suc w) w mb k _ h
        (record {
          mails = s.mails;
          senders = valid;
          receivers = s.receivers;
          within = s.within;
          bounded = s.bounded;
        })
        (omega (arith, Sound-few (suc w) mb k m h e, fewer))

  Sound-receiver :
      ltb 0 m.recv_queue.count ≡ true
      → Sound w mb (record k {
        mailboxes =
            set_cell k.mailboxes mb (some (record m { recv_queue = (dequeue_ptr m.recv_queue).1 }));
      })
  Sound-receiver some_wait =
      let s = h.boxes mb m e in
      let (valid, _) = dequeue_ptr-IsValid m.recv_queue s.receivers in
      let fewer = dequeue_ptr-fewer m.recv_queue s.receivers some_wait in
      Sound-set (suc w) w mb k _ h
        (record {
          mails = s.mails;
          senders = s.senders;
          receivers = valid;
          within = s.within;
          bounded = s.bounded;
        })
        (omega (arith, Sound-few (suc w) mb k m h e, fewer))

Sound-more : (w : ℕ) (mb : Ptr) (k : Kernel) → Sound w mb k → Sound (suc w) mb k
Sound-more w mb k h = record {
  boxes = h.boxes;
  box = h.box;
  holds_box = h.holds_box;
  few = omega (arith, h.few);
}

set_state-Keeps :
    (w : ℕ) (mb p : Ptr) (s : ProcessState) (rest : M (Unit {0})) (k : Kernel)
    → ((k' : Kernel) → Sound w mb k' → Keeps w mb (rest k'))
    → Sound w mb k
    → Keeps w mb ((set_state p s >> rest) k)
set_state-Keeps w mb p s rest k rests h =
    and_then-Ensures (λ _. rest)
      (load-Ensures (k.tasks.cell p) k _ λ d _. returns (Sound-same w mb k _ h refl))
      (λ _ k' h'. rests k' h')

module _ (w : ℕ) (mb : Ptr) (rest : M (Unit {0}))
    (rests : (k : Kernel) → Sound w mb k → Keeps w mb (rest k)) where
  wake_sender-Keeps :
      (send : Ptr → Ptr → ℕ → M ℕ) (p : Ptr) (k : Kernel)
      → ((q msg : Ptr) (size : ℕ) (k' : Kernel) → Sound w mb k' → Keeps w mb (send q msg size k'))
      → Sound w mb k
      → Keeps w mb (wake_sender send rest p k)
  unfolding wake_sender
  wake_sender-Keeps send p k sends h = load-Ensures (k.tasks.cell p) k _ λ d _.
      if_Ensures (is_wait_mailbox d.state) _ _ k
        (λ _.
          and_then-Ensures (λ _. set_state p ProcessState.ready >> rest)
            (sends p d.request_args.arg1 d.request_args.arg2 k h)
            (λ _ k' h'. set_state-Keeps w mb p ProcessState.ready rest k' rests h'))
        (λ _. returns (Sound-same w mb k _ h refl))

  wake_receiver-Keeps :
      (recv : Ptr → M ℕ) (p : Ptr) (k : Kernel)
      → ((dest : Ptr) (k' : Kernel) → Sound w mb k' → Keeps w mb (recv dest k'))
      → Sound w mb k
      → Keeps w mb (wake_receiver recv rest p k)
  unfolding wake_receiver
  wake_receiver-Keeps recv p k recvs h = load-Ensures (k.tasks.cell p) k _ λ d _.
      if_Ensures (is_wait_mailbox d.state) _ _ k
        (λ _.
          and_then-Ensures (λ _. set_state p ProcessState.ready >> rest)
            (recvs d.request_args.arg1 k h)
            (λ _ k' h'. set_state-Keeps w mb p ProcessState.ready rest k' rests h'))
        (λ _. returns (Sound-same w mb k _ h refl))

  send_round-Keeps :
      (send : Ptr → Ptr → ℕ → M ℕ) (k : Kernel)
      → ((q msg : Ptr) (size : ℕ) (k' : Kernel) → Sound w mb k' → Keeps w mb (send q msg size k'))
      → Sound (suc w) mb k
      → Keeps (suc w) mb (send_round send rest mb k)
  unfolding send_round
  send_round-Keeps send k sends h = load-Ensures (k.mailboxes.cell mb) k _ λ m e.
      if_Ensures (ltb 0 m.send_queue.count && ltb m.mails.count m.capacity) _ _ k
        (λ t.
          weaken (wake_sender-Keeps send _ _ sends (Sound-sender w mb k m h e (&&_left _ _ t)))
            (λ _ k' h'. returns (Sound-more w mb k' h')))
        (λ _. returns h)

  recv_round-Keeps :
      (recv : Ptr → M ℕ) (k : Kernel)
      → ((dest : Ptr) (k' : Kernel) → Sound w mb k' → Keeps w mb (recv dest k'))
      → Sound (suc w) mb k
      → Keeps (suc w) mb (recv_round recv rest mb k)
  unfolding recv_round
  recv_round-Keeps recv k recvs h = load-Ensures (k.mailboxes.cell mb) k _ λ m e.
      if_Ensures (ltb 0 m.recv_queue.count && ltb 0 m.mails.count) _ _ k
        (λ t.
          weaken (wake_receiver-Keeps recv _ _ recvs (Sound-receiver w mb k m h e (&&_left _ _ t)))
            (λ _ k' h'. returns (Sound-more w mb k' h')))
        (λ _. returns h)

none_wait : (a b : ℕ) → a + b ≤ 0 → ¬ (ltb 0 a ≡ true)
none_wait a b h t = ground arith

-- With no task waiting a round does nothing.
module _ (mb : Ptr) (rest : M (Unit {0})) (k : Kernel) (h : Sound 0 mb k) where
  send_round-none : (send : Ptr → Ptr → ℕ → M ℕ) → Keeps 0 mb (send_round send rest mb k)
  unfolding send_round
  send_round-none send = load-Ensures (k.mailboxes.cell mb) k _ λ m e.
      if_Ensures (ltb 0 m.send_queue.count && ltb m.mails.count m.capacity) _ _ k
        (λ t. absurd (
          none_wait m.send_queue.count m.recv_queue.count (Sound-few 0 mb k m h e) (&&_left _ _ t)))
        (λ _. returns h)

  recv_round-none : (recv : Ptr → M ℕ) → Keeps 0 mb (recv_round recv rest mb k)
  unfolding recv_round
  recv_round-none recv = load-Ensures (k.mailboxes.cell mb) k _ λ m e.
      if_Ensures (ltb 0 m.recv_queue.count && ltb 0 m.mails.count) _ _ k
        (λ t. absurd (
          none_wait m.recv_queue.count m.send_queue.count (omega (arith, Sound-few 0 mb k m h e))
            (&&_left _ _ t)))
        (λ _. returns h)

-- Enough fuel is one round more than there are tasks waiting.
mutual
  unfolding send_from_queue

  pub send_from_queue-Keeps :
      (w : ℕ) (mb : Ptr) (k : Kernel) → Sound w mb k → Keeps w mb (send_from_queue (suc w) mb k)
  send_from_queue-Keeps zero mb k h =
      send_round-none mb (send_from_queue 0 mb) k h
        λ p msg size. send_with (recv_from_queue 0 mb) p mb msg size 0
  send_from_queue-Keeps (suc w) mb k h =
      send_round-Keeps w mb (send_from_queue (suc w) mb) (send_from_queue-Keeps w mb) _ k
        (send_with-Keeps w mb (recv_from_queue (suc w) mb) (recv_from_queue-Keeps w mb)) h

  pub recv_from_queue-Keeps :
      (w : ℕ) (mb : Ptr) (k : Kernel) → Sound w mb k → Keeps w mb (recv_from_queue (suc w) mb k)
  recv_from_queue-Keeps zero mb k h =
      recv_round-none mb (recv_from_queue 0 mb) k h
        λ dest. recv_with (send_from_queue 0 mb) mb dest 0
  recv_from_queue-Keeps (suc w) mb k h =
      recv_round-Keeps w mb (recv_from_queue (suc w) mb) (recv_from_queue-Keeps w mb) _ k
        (recv_with-Keeps w mb (send_from_queue (suc w) mb) (send_from_queue-Keeps w mb)) h
