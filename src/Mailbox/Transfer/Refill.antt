-- ===== src/Mailbox/Transfer/Refill.antt =====
-- A mail that is received from a full box while a task waits to send another.
use ez_rtos.Mailbox.Transfer.{
  put_mail, copy_message, make_mail, send_with, take_mail, recv_with, wake_sender, send_round,
  send_from_queue, fuel_of, kernel_mailbox_recv_internal,
}
use ez_rtos.Mailbox.Transfer.Deliver.{appended, received}
use ez_rtos.Mailbox.Transfer.RoundTrip.{Allocates}
use ez_rtos.Mailbox.Transfer.HandOver.{without, FirstWaits}
use ez_rtos.Kernel.State.{Kernel}
use ez_rtos.Kernel.Objects.{Mail, Mailbox}
use ez_rtos.Kernel.Types.{ProcessState, Pd}
use ez_rtos.Kernel.Run.{
  M, pure, and_then, update, set_cell, take_answer, malloc, copy_bytes, memcpy, ok,
}
use ez_rtos.Base.{
  ℕ, suc, ◌+◌, ◌<◌, ◌≡◌, refl, ap, ◌∙◌, true, some, List, ◌∷◌, arith, ==_refl, length, Ptr,
}
use ez_rtos.Queue.Laws.{IsValid, enqueue_ptr-ptr, dequeue_ptr-cons}

-- The kernel after the task `s`, the first of those that wait to send, has sent its message and is
-- ready.
abbrev pub refilled : Kernel → Ptr → Mailbox → Ptr → Ptr → Ptr → List Ptr → Pd → List Ptr → Kernel
refilled k mb m mail copy s ss d later = record k {
  mailboxes =
      set_cell k.mailboxes mb
        (some (record m { mails = appended m.mails mail; send_queue = without m.send_queue ss }));
  mails =
      update k.mails mail
        (some (record { ptr = copy; size = d.request_args.arg2; source = d.pid }));
  bytes = copy_bytes d.request_args.arg2 copy d.request_args.arg1 k.bytes;
  tasks = set_cell k.tasks s (some (record d { state = ProcessState.ready }));
  answers = later;
}

send_from_queue-one :
    (n : ℕ) (k : Kernel) (mb mail copy qe s : Ptr) (ss later : List Ptr) (m : Mailbox) (d : Pd)
    → k.mailboxes.cell mb ≡ some m
    → IsValid m.mails
    → m.mails.is_ptr_queue ≡ true
    → m.mails.count + 1 ≡ m.capacity
    → FirstWaits k m.send_queue s ss d
    → m.recv_queue.count ≡ 0
    → Allocates k mail copy qe later
    → send_from_queue (suc (suc n)) mb k ≡ ok tt (refilled k mb m mail copy s ss d later)
unfolding send_from_queue send_round wake_sender send_with make_mail copy_message put_mail malloc
    take_answer memcpy
send_from_queue-one n k mb mail copy qe s ss later m d e valid is_ptr room f idle a =
    let ed = f.holds in
    let w = f.waits_mailbox in
    let answered = a.answered in
    let (hm, hc, hq) = a.ne_null in
    let added = enqueue_ptr-ptr m.mails qe mail valid is_ptr hq in
    let taken = dequeue_ptr-cons m.send_queue s ss f.valid f.first in
    let senders : m.send_queue.count ≡ suc (length ss) = f.valid.counted ∙ ap length f.first in
    ground arith

take_mail-wakes :
    (wake : M (Unit {0})) (k : Kernel) (mb dest mail : Ptr) (rest : List Ptr) (blocking : ℕ)
    (m : Mailbox) (c old : Mail)
    → k.mailboxes.cell mb ≡ some m
    → IsValid m.mails
    → m.mails.elements ≡ mail ∷ rest
    → k.mails mail ≡ some c
    → k.mails dest ≡ some old
    → 0 < m.send_queue.count
    → recv_with wake mb dest blocking k
      ≡ and_then (wake (received k mb m rest mail c dest)) (λ _. pure 1)
unfolding recv_with take_mail
take_mail-wakes wake k mb dest mail rest blocking m c old e valid first content there busy =
    let all : m.mails.count ≡ suc (length rest) = valid.counted ∙ ap length first in
    let taken = dequeue_ptr-cons m.mails mail rest valid first in ground arith

recv_internal-loads :
    (k : Kernel) (mb dest : Ptr) (blocking : ℕ) (m : Mailbox)
    → k.mailboxes.cell mb ≡ some m
    → kernel_mailbox_recv_internal mb dest blocking k
      ≡ recv_with (send_from_queue (fuel_of m) mb) mb dest blocking k
unfolding kernel_mailbox_recv_internal
recv_internal-loads k mb dest blocking m e = ground arith

-- A mail that is received from a full box while tasks wait to send makes room for the message of
-- the first of them, which goes to the end of the mails, and that task becomes ready and leaves the
-- queue; the other tasks wait on. The box holds a mail, its queues are valid, the mails received
-- and receiving are in memory, no task waits for a mail, the sender is in the state of waiting for
-- a mailbox, and the allocations succeed.
pub kernel_mailbox_recv_internal-sender :
    (k : Kernel) (mb dest mail mail' copy qe s : Ptr) (blocking : ℕ) (rest ss later : List Ptr)
    (m : Mailbox) (c old : Mail) (d : Pd)
    → k.mailboxes.cell mb ≡ some m
    → IsValid m.mails
    → m.mails.is_ptr_queue ≡ true
    → m.mails.elements ≡ mail ∷ rest
    → m.mails.count ≡ m.capacity
    → k.mails mail ≡ some c
    → k.mails dest ≡ some old
    → FirstWaits k m.send_queue s ss d
    → m.recv_queue.count ≡ 0
    → Allocates k mail' copy qe later
    → kernel_mailbox_recv_internal mb dest blocking k
      ≡ ok 1 (
          refilled
            (received k mb m rest mail c dest)
            mb
            (record m { mails = without m.mails rest })
            mail'
            copy
            s
            ss
            d
            later)
kernel_mailbox_recv_internal-sender k mb dest mail mail' copy qe s blocking rest ss later m c old d
      e valid is_ptr first full content there f idle a =
    let senders : m.send_queue.count ≡ suc (length ss) = f.valid.counted ∙ ap length f.first in
    let mails : m.mails.count ≡ suc (length rest) = valid.counted ∙ ap length first in
    let fuel : fuel_of m ≡ suc (suc (length ss)) = omega (arith, senders, idle) in
    let k' = received k mb m rest mail c dest in
    let left : IsValid (without m.mails rest) = record {
      counted = omega (arith, mails);
      small = omega (arith, valid.small);
    } in
    let takes =
      take_mail-wakes (send_from_queue (fuel_of m) mb) k mb dest mail rest blocking m c old e valid
        first content there (omega (arith, senders)) in
    let wakes =
      send_from_queue-one (length ss) k' mb mail' copy qe s ss later
        (record m { mails = without m.mails rest }) d (rw (==_refl mb) refl) left is_ptr
        (omega (arith, full, mails))
        (record {
          valid = f.valid;
          first = f.first;
          holds = f.holds;
          waits_mailbox = f.waits_mailbox;
        })
        idle (record { answered = a.answered; ne_null = a.ne_null }) in
    recv_internal-loads k mb dest blocking m e
    ∙ takes
    ∙ ap (λ n. and_then (send_from_queue n mb k') (λ _. pure 1)) fuel
    ∙ ap (λ r. and_then r (λ _. pure 1)) wakes
