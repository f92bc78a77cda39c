-- ===== src/Mailbox/Transfer/Ends/Handlers.antt =====
-- What `Kernel_Mailbox_Send` and `Kernel_Mailbox_Recv` keep of the boxes.
use ez_rtos.PtrList.{nodes}
use ez_rtos.PtrList.Walk.{first_object}
use ez_rtos.Mailbox.{find_mailbox_by_id}
use ez_rtos.Mailbox.Transfer.{
  send_blocked, send_with, recv_blocked, recv_with, kernel_mailbox_send_internal,
  kernel_mailbox_recv_internal, reply_unless_waiting, kernel_mailbox_send, kernel_mailbox_recv,
}
use ez_rtos.Mailbox.Transfer.Ends.{make_mail-Keeps, take_mail-Keeps}
use ez_rtos.Mailbox.Transfer.Ends.Rounds.{send_from_queue-Keeps, recv_from_queue-Keeps}
use ez_rtos.Mailbox.Sound.{IsSoundBox, AllSound, Sound, AllSound-set, enqueue_ptr-IsValid}
use ez_rtos.Queue.{Queue, enqueue_ptr}
use ez_rtos.Kernel.Objects.{Mailbox}
use ez_rtos.Kernel.State.{Kernel}
use ez_rtos.Kernel.Types.{ErrorCode, ProcessState}
use ez_rtos.Kernel.Run.{
  Run, pure, ◌>>◌, store_mailbox, set_state, set_retval, request_cswitch, raise_error,
}
use ez_rtos.Base.{ℕ, ◌+◌, ◌<◌, ◌≡◌, some, arith, leb, ◌==◌, leb-false, Ptr, null, is_negative}
use ez_rtos.Queue.Laws.{IsValid}
use ez_rtos.Kernel.Ensures.{
  Ensures, if_Ensures, weaken, and_then-Ensures, load-Ensures, from_option-Ensures, malloc-Ensures,
  returns,
}

-- Nowhere has the number of waiting tasks reached the last word.
abbrev pub FewWait : Kernel → Type 0
FewWait k =
    (p : Ptr) (m : Mailbox)
    → k.mailboxes.cell p ≡ some m
    → (m.send_queue.count + 1 < 65535) × (m.recv_queue.count + 1 < 65535)

abbrev KeepsAll : {A : Type 0} → Run A → Type 0
KeepsAll r = Ensures (λ _ k. AllSound k) r

send_queue-IsSoundBox :
    (m : Mailbox) (q : Queue) → IsSoundBox m → IsValid q → IsSoundBox (record m { send_queue = q })
send_queue-IsSoundBox m q s valid = record {
  mails = s.mails;
  senders = valid;
  receivers = s.receivers;
  within = s.within;
  bounded = s.bounded;
}

recv_queue-IsSoundBox :
    (m : Mailbox) (q : Queue) → IsSoundBox m → IsValid q → IsSoundBox (record m { recv_queue = q })
recv_queue-IsSoundBox m q s valid = record {
  mails = s.mails;
  senders = s.senders;
  receivers = valid;
  within = s.within;
  bounded = s.bounded;
}

-- The end of a call that waits, and the write of a result.
wait-KeepsAll :
    (p mb : Ptr) (k : Kernel) (m : Mailbox)
    → AllSound k
    → IsSoundBox m
    → KeepsAll {A = ℕ} (
        (store_mailbox mb (some m)
            >> (set_state p ProcessState.wait_mailbox >> (request_cswitch >> pure 65535)))
          k)
wait-KeepsAll p mb k m h s =
    and_then-Ensures (λ _. request_cswitch >> pure 65535)
      (load-Ensures (k.tasks.cell p) _ _ λ d _. returns (AllSound-set k mb m h s))
      (λ _ k' h'. returns h')

set_retval-KeepsAll : (p : Ptr) (v : ℕ) (k : Kernel) → AllSound k → KeepsAll (set_retval p v k)
set_retval-KeepsAll p v k h = load-Ensures (k.tasks.cell p) k _ λ d _. returns h

not_found-KeepsAll :
    (p : Ptr) (k : Kernel)
    → AllSound k
    → KeepsAll ((raise_error ErrorCode.object_not_found_err >> set_retval p 0) k)
not_found-KeepsAll p k h = load-Ensures (k.tasks.cell p) _ _ λ d _. returns h

send_blocked-KeepsAll :
    (sender mb : Ptr) (blocking : ℕ) (k : Kernel)
    → AllSound k
    → FewWait k
    → KeepsAll (send_blocked sender mb blocking k)
unfolding send_blocked
send_blocked-KeepsAll sender mb blocking k h few =
    if_Ensures (blocking == 0) _ _ k (λ _. returns h)
      λ _. load-Ensures (k.mailboxes.cell mb) k _ λ m e. malloc-Ensures k _ λ qe later.
        from_option-Ensures (enqueue_ptr m.send_queue qe sender) (record k { answers = later }) _
          λ (q, b) added.
            let s = h mb m e in
            let (valid, _) =
              enqueue_ptr-IsValid m.send_queue qe sender (q, b) s.senders (few mb m e).0 added in
            wait-KeepsAll sender mb (record k { answers = later }) (record m { send_queue = q }) h
              (send_queue-IsSoundBox m q s valid)

recv_blocked-KeepsAll :
    (mb dest : Ptr) (blocking : ℕ) (k : Kernel)
    → AllSound k
    → FewWait k
    → KeepsAll (recv_blocked mb dest blocking k)
unfolding recv_blocked
recv_blocked-KeepsAll mb dest blocking k h few =
    if_Ensures (blocking == 0) _ _ k (λ _. load-Ensures (k.mails dest) k _ λ _ _. returns h)
      λ _. load-Ensures (k.mailboxes.cell mb) k _ λ m e. malloc-Ensures k _ λ qe later.
        from_option-Ensures (enqueue_ptr m.recv_queue qe k.current_process)
          (record k { answers = later }) _
          λ (q, b) added.
            let s = h mb m e in
            let (valid, _) =
              enqueue_ptr-IsValid m.recv_queue qe k.current_process (q, b) s.receivers
                (few mb m e).1 added in
            wait-KeepsAll k.current_process mb (record k { answers = later })
              (record m { recv_queue = q }) h (recv_queue-IsSoundBox m q s valid)

kernel_mailbox_send_internal-KeepsAll :
    (sender mb msg : Ptr) (size blocking : ℕ) (k : Kernel)
    → AllSound k
    → FewWait k
    → KeepsAll (kernel_mailbox_send_internal sender mb msg size blocking k)
unfolding kernel_mailbox_send_internal send_with
kernel_mailbox_send_internal-KeepsAll sender mb msg size blocking k h few =
    load-Ensures (k.mailboxes.cell mb) k _ λ m e. load-Ensures (k.mailboxes.cell mb) k _ λ m' e'.
      if_Ensures (leb m'.capacity m'.mails.count) _ _ k
        (λ _. send_blocked-KeepsAll sender mb blocking k h few)
        λ f.
          let w = m.send_queue.count + m.recv_queue.count in
          let sound : Sound w mb k = record {
            boxes = h;
            box = m;
            holds_box = e;
            few = omega arith;
          } in
          weaken
            (make_mail-Keeps w mb _ (recv_from_queue-Keeps w mb) sender msg size k m' sound e'
              (leb-false _ _ f))
            (λ _ _ s. returns s.boxes)

kernel_mailbox_recv_internal-KeepsAll :
    (mb dest : Ptr) (blocking : ℕ) (k : Kernel)
    → AllSound k
    → FewWait k
    → KeepsAll (kernel_mailbox_recv_internal mb dest blocking k)
unfolding kernel_mailbox_recv_internal recv_with
kernel_mailbox_recv_internal-KeepsAll mb dest blocking k h few =
    load-Ensures (k.mailboxes.cell mb) k _ λ m e. load-Ensures (k.mailboxes.cell mb) k _ λ m' e'.
      if_Ensures (m'.mails.count == 0) _ _ k (λ _. recv_blocked-KeepsAll mb dest blocking k h few)
        λ f.
          let w = m.send_queue.count + m.recv_queue.count in
          let sound : Sound w mb k = record {
            boxes = h;
            box = m;
            holds_box = e;
            few = omega arith;
          } in
          weaken (take_mail-Keeps w mb _ (send_from_queue-Keeps w mb) dest k sound)
            (λ _ _ s. returns s.boxes)

-- The search changes no box, and no queue.
pub find_mailbox_by_id-Ensures :
    (id : ℕ) (k : Kernel)
    → AllSound k
    → FewWait k
    → Ensures (λ _ k'. AllSound k' × FewWait k') (find_mailbox_by_id id k)
unfolding find_mailbox_by_id
find_mailbox_by_id-Ensures id k h few =
    if_Ensures (id == 0) _ _ k (λ _. returns (h, few))
      λ _.
        from_option-Ensures
          (first_object k.mailboxes.cell (λ m. m.id == id) (nodes k.mailboxes.list)) k _
          λ found _. if_Ensures (found == null) _ _ k (λ _. returns (h, few)) λ _. returns (h, few)

reply_unless_waiting-KeepsAll :
    (v : ℕ) (k : Kernel) → AllSound k → KeepsAll (reply_unless_waiting v k)
unfolding reply_unless_waiting
reply_unless_waiting-KeepsAll v k h =
    if_Ensures (is_negative v) _ _ k (λ _. returns h)
      λ _. set_retval-KeepsAll k.current_process v k h

pub kernel_mailbox_send-AllSound :
    (k : Kernel) → AllSound k → FewWait k → Ensures (λ _ k'. AllSound k') (kernel_mailbox_send k)
unfolding kernel_mailbox_send
kernel_mailbox_send-AllSound k h few =
    let p = k.current_process in
    load-Ensures (k.tasks.cell p) k _ λ me _.
      and_then-Ensures _ (find_mailbox_by_id-Ensures me.request_args.arg0 k h few)
        λ mb k' (h', few').
          if_Ensures (mb == null) _ _ k' (λ _. not_found-KeepsAll p k' h')
            λ _.
              and_then-Ensures _
                (kernel_mailbox_send_internal-KeepsAll p mb me.request_args.arg1
                  me.request_args.arg2 me.request_args.arg3 k' h' few')
                reply_unless_waiting-KeepsAll

pub kernel_mailbox_recv-AllSound :
    (k : Kernel) → AllSound k → FewWait k → Ensures (λ _ k'. AllSound k') (kernel_mailbox_recv k)
unfolding kernel_mailbox_recv
kernel_mailbox_recv-AllSound k h few =
    let p = k.current_process in
    load-Ensures (k.tasks.cell p) k _ λ me _.
      and_then-Ensures _ (find_mailbox_by_id-Ensures me.request_args.arg0 k h few)
        λ mb k' (h', few').
          if_Ensures (mb == null) _ _ k' (λ _. not_found-KeepsAll p k' h')
            λ _.
              and_then-Ensures _
                (kernel_mailbox_recv_internal-KeepsAll mb me.request_args.arg1 me.request_args.arg2
                  k' h' few')
                reply_unless_waiting-KeepsAll
