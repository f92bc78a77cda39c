-- ===== src/Mailbox/Transfer/Ends.antt =====
-- What sending and receiving keep of the boxes, when the wake-ups keep it.
pub mod Rounds
pub mod Fuel
pub mod Handlers
use ez_rtos.Mailbox.Transfer.{
  send_blocked, put_mail, copy_message, make_mail, send_with, recv_blocked, take_mail, recv_with,
}
use ez_rtos.Mailbox.Sound.{
  IsSoundBox, Sound, Sound-same, Sound-set, Sound-few, enqueue_ptr-IsValid, dequeue_ptr-IsValid,
}
use ez_rtos.Queue.{Queue, enqueue_ptr, dequeue_ptr}
use ez_rtos.Kernel.Objects.{Mailbox}
use ez_rtos.Kernel.Types.{ErrorCode, malloc_failed_err}
use ez_rtos.Kernel.State.{Kernel}
use ez_rtos.Kernel.Run.{Run, M, pure, ◌>>◌, done, set_cell, copy_bytes, memcpy, fault}
use ez_rtos.Base.{
  ℕ, ◌≤◌, ◌<◌, ◌≡◌, refl, sym, ◌∙◌, Bool, true, false, some, arith, ltb, leb, ◌==◌, if◌then◌else◌,
  leb-false, Ptr, null,
}
use ez_rtos.Queue.Laws.{IsValid}
use ez_rtos.Kernel.Ensures.{
  Ensures, if_Ensures, and_then-Ensures, load-Ensures, from_option-Ensures, malloc-Ensures, returns,
  faults,
}

abbrev Keeps : {A : Type 0} → ℕ → Ptr → Run A → Type 0
Keeps w mb r = Ensures (λ _ k. Sound w mb k) r

-- A box after its mails have changed.
mails-IsSoundBox :
    (m : Mailbox) (q : Queue)
    → IsSoundBox m
    → IsValid q
    → q.count ≤ m.capacity
    → IsSoundBox (record m { mails = q })
mails-IsSoundBox m q s valid within = record {
  mails = valid;
  senders = s.senders;
  receivers = s.receivers;
  within = within;
  bounded = s.bounded;
}

module _ (w : ℕ) (mb : Ptr) (wake : M (Unit {0}))
    (wakes : (k : Kernel) → Sound w mb k → Keeps w mb (wake k)) where
  wakes_or_not :
      (b : Bool) (v : ℕ) (k : Kernel)
      → Sound w mb k
      → Keeps w mb (((if b then wake else done) >> pure v) k)
  wakes_or_not true v k h = and_then-Ensures (λ _. pure v) (wakes k h) (λ _ k' p. returns p)
  wakes_or_not false v k h = returns h

  -- There is room in the box.
  put_mail-Keeps :
      (mail : Ptr) (k : Kernel) (m : Mailbox)
      → Sound w mb k
      → k.mailboxes.cell mb ≡ some m
      → m.mails.count < m.capacity
      → Keeps w mb (put_mail wake mb mail k)
  unfolding put_mail
  put_mail-Keeps mail k m h e room = load-Ensures (k.mailboxes.cell mb) k _ λ m' e'.
      let same : some m ≡ some m' = sym e ∙ e' in
      let box : m ≡ m' = cc in
      let room' : m'.mails.count < m'.capacity = rw (← box) room in
      let sound = h.boxes mb m' e' in
      malloc-Ensures k _ λ qe later.
        let k' = record k { answers = later } in
        from_option-Ensures (enqueue_ptr m'.mails qe mail) k' _ λ (q, b) added.
          let (valid, fewer) =
            enqueue_ptr-IsValid m'.mails qe mail (q, b) sound.mails
              (omega (arith, room', sound.bounded)) added in
          wakes_or_not (ltb 0 m'.recv_queue.count) 1 _ (
            Sound-set w w mb k' (record m' { mails = q }) (Sound-same w mb k k' h refl)
              (mails-IsSoundBox m' q sound valid (omega (arith, room', fewer)))
              (Sound-few w mb k m' h e'))

  copy_message-Keeps :
      (mail copy msg : Ptr) (size : ℕ) (k : Kernel) (m : Mailbox)
      → Sound w mb k
      → k.mailboxes.cell mb ≡ some m
      → m.mails.count < m.capacity
      → Keeps w mb (copy_message wake mb mail copy msg size k)
  unfolding copy_message memcpy
  copy_message-Keeps mail copy msg size k m h e room =
      if_Ensures (copy == null) _ _ k
        (λ _. returns (Sound-same w mb k (record k { err = ErrorCode.malloc_failed_err }) h refl))
        λ _.
          let copied = record k { bytes = copy_bytes size copy msg k.bytes } in
          put_mail-Keeps mail copied m (Sound-same w mb k copied h refl) e room

  make_mail-Keeps :
      (sender msg : Ptr) (size : ℕ) (k : Kernel) (m : Mailbox)
      → Sound w mb k
      → k.mailboxes.cell mb ≡ some m
      → m.mails.count < m.capacity
      → Keeps w mb (make_mail wake sender mb msg size k)
  unfolding make_mail
  make_mail-Keeps sender msg size k m h e room = malloc-Ensures k _ λ mail later.
      if_Ensures (mail == null) (λ _. fault) _ _ (λ _. faults)
        λ _.
          load-Ensures (k.tasks.cell sender) (record k { answers = later }) _
            λ d _.
              malloc-Ensures (record k { answers = later }) _
                λ copy last.
                  copy_message-Keeps mail copy msg size _ m (Sound-same w mb k _ h refl) e room

  send_with-Keeps :
      (sender msg : Ptr) (size : ℕ) (k : Kernel)
      → Sound w mb k
      → Keeps w mb (send_with wake sender mb msg size 0 k)
  unfolding send_with send_blocked
  send_with-Keeps sender msg size k h = load-Ensures (k.mailboxes.cell mb) k _ λ m e.
      if_Ensures (leb m.capacity m.mails.count) _ _ k (λ _. returns h)
        λ f. make_mail-Keeps sender msg size k m h e (leb-false _ _ f)

  take_mail-Keeps : (dest : Ptr) (k : Kernel) → Sound w mb k → Keeps w mb (take_mail wake mb dest k)
  unfolding take_mail
  take_mail-Keeps dest k h = load-Ensures (k.mailboxes.cell mb) k _ λ m e.
      let sound = h.boxes mb m e in
      let (valid, fewer) = dequeue_ptr-IsValid m.mails sound.mails in
      let taken = record m { mails = (dequeue_ptr m.mails).1 } in
      let kept =
        Sound-set w w mb k taken h
          (mails-IsSoundBox m (dequeue_ptr m.mails).1 sound valid
            (omega (arith, fewer, sound.within)))
          (Sound-few w mb k m h e) in
      load-Ensures (k.mails (dequeue_ptr m.mails).0) _ _ λ content _.
        load-Ensures (k.mails dest) _ _ λ _ _. wakes_or_not (ltb 0 m.send_queue.count) 1 _ (
          Sound-same w mb (record k { mailboxes = set_cell k.mailboxes mb (some taken) }) _ kept
            refl)

  recv_with-Keeps :
      (dest : Ptr) (k : Kernel) → Sound w mb k → Keeps w mb (recv_with wake mb dest 0 k)
  unfolding recv_with recv_blocked
  recv_with-Keeps dest k h = load-Ensures (k.mailboxes.cell mb) k _ λ m e.
      if_Ensures (m.mails.count == 0) _ _ k
        (λ _. load-Ensures (k.mails dest) k _ λ _ _. returns (Sound-same w mb k _ h refl))
        (λ _. take_mail-Keeps dest k h)
