-- ===== src/Mailbox/Transfer/HandOver.antt =====
-- A mail that is sent while a task waits for one, and one that is received while a task waits to send.
use ez_rtos.Queue.{Queue}
use ez_rtos.Mailbox.Transfer.{
  put_mail, copy_message, make_mail, send_with, take_mail, recv_with, wake_receiver, recv_round,
  recv_from_queue, fuel_of, kernel_mailbox_send_internal,
}
use ez_rtos.Mailbox.Transfer.Deliver.{appended, sent}
use ez_rtos.Mailbox.Transfer.RoundTrip.{Allocates}
use ez_rtos.Kernel.State.{Kernel}
use ez_rtos.Kernel.Objects.{Mail, Mailbox}
use ez_rtos.Kernel.Types.{ProcessState, Pd, is_wait_mailbox}
use ez_rtos.Kernel.Run.{M, pure, and_then, update, set_cell, take_answer, malloc, memcpy, ok}
use ez_rtos.Base.{
  ℕ, suc, ◌-◌, ◌<◌, ◌≡◌, refl, sym, ap, ◌∙◌, ◌≢◌, true, false, none, some, List, [], ◌∷◌, ◌++◌,
  arith, ◌==◌, ==_refl, ==_ne, length, length-append, Ptr,
}
use ez_rtos.Queue.Laws.{IsValid, enqueue_ptr-ptr, dequeue_ptr-cons}

-- A queue without its first element.
abbrev pub without : Queue → List Ptr → Queue
without q rest = record q { elements = rest; count = q.count - 1 }

-- The kernel after the task `r`, the first of those that wait, has received the only mail of the box
-- and is ready.
abbrev pub handed_over : Kernel → Ptr → Mailbox → Ptr → Mail → Ptr → List Ptr → Pd → Kernel
handed_over k mb m mail c r rs d = record k {
  mailboxes =
      set_cell k.mailboxes mb
        (some (record m { mails = without m.mails []; recv_queue = without m.recv_queue rs }));
  mails = update (update k.mails d.request_args.arg1 (some c)) mail none;
  tasks = set_cell k.tasks r (some (record d { state = ProcessState.ready }));
}

-- The task `d` at `r` is the first that waits in the queue `q`, before those of `rs`.
pub record FirstWaits (k : Kernel) (q : Queue) (r : Ptr) (rs : List Ptr) (d : Pd) : Type 0 where
  pub valid : IsValid q
  pub first : q.elements ≡ r ∷ rs
  pub holds : k.tasks.cell r ≡ some d
  pub waits_mailbox : is_wait_mailbox d.state ≡ true

recv_from_queue-one :
    (n : ℕ) (k : Kernel) (mb mail r : Ptr) (rs : List Ptr) (m : Mailbox) (c old : Mail) (d : Pd)
    → k.mailboxes.cell mb ≡ some m
    → IsValid m.mails
    → m.mails.elements ≡ mail ∷ []
    → FirstWaits k m.recv_queue r rs d
    → m.send_queue.count ≡ 0
    → k.mails mail ≡ some c
    → k.mails d.request_args.arg1 ≡ some old
    → recv_from_queue (suc (suc n)) mb k ≡ ok tt (handed_over k mb m mail c r rs d)
unfolding recv_from_queue recv_round wake_receiver recv_with take_mail
recv_from_queue-one n k mb mail r rs m c old d e vm em f idle ec eo =
    let vr = f.valid in
    let er = f.first in
    let ed = f.holds in
    let w = f.waits_mailbox in
    let mail_taken = dequeue_ptr-cons m.mails mail [] vm em in
    let receiver_taken = dequeue_ptr-cons m.recv_queue r rs vr er in
    let one_mail : m.mails.count ≡ 1 = vm.counted ∙ ap length em in
    let receivers : m.recv_queue.count ≡ suc (length rs) = vr.counted ∙ ap length er in ground arith

send_with-wakes :
    (wake : M (Unit {0})) (k : Kernel) (sender mb msg mail copy qe : Ptr) (size blocking : ℕ)
    (later : List Ptr) (m : Mailbox) (d : Pd)
    → k.mailboxes.cell mb ≡ some m
    → k.tasks.cell sender ≡ some d
    → Allocates k mail copy qe later
    → IsValid m.mails
    → m.mails.is_ptr_queue ≡ true
    → m.mails.count < m.capacity
    → 0 < m.recv_queue.count
    → send_with wake sender mb msg size blocking k
      ≡ and_then (wake (sent k mb m d mail msg size copy later)) (λ _. pure 1)
unfolding send_with make_mail copy_message put_mail malloc take_answer memcpy
send_with-wakes wake k sender mb msg mail copy qe size blocking later m d e ed a valid is_ptr room
      busy =
    let answered = a.answered in
    let (hm, hc, hq) = a.ne_null in
    let added = enqueue_ptr-ptr m.mails qe mail valid is_ptr hq in ground arith

send_internal-loads :
    (k : Kernel) (sender mb msg : Ptr) (size blocking : ℕ) (m : Mailbox)
    → k.mailboxes.cell mb ≡ some m
    → kernel_mailbox_send_internal sender mb msg size blocking k
      ≡ send_with (recv_from_queue (fuel_of m) mb) sender mb msg size blocking k
unfolding kernel_mailbox_send_internal
send_internal-loads k sender mb msg size blocking m e = ground arith

-- A mail that is sent to an empty box while tasks wait for one goes to the first of them, which
-- becomes ready and leaves the queue; the box is empty afterwards and the other tasks wait on. The
-- allocations succeed, the capacity is not 0, the queues are valid, no task waits to send, and the
-- receiver is in the state of waiting for a mailbox and names a mail in memory that is not the one
-- allocated.
pub kernel_mailbox_send_internal-receiver :
    (k : Kernel) (sender mb msg mail copy qe r : Ptr) (size blocking : ℕ) (later rs : List Ptr)
    (m : Mailbox) (d dr : Pd) (old : Mail)
    → k.mailboxes.cell mb ≡ some m
    → k.tasks.cell sender ≡ some d
    → Allocates k mail copy qe later
    → m.mails.elements ≡ []
    → IsValid m.mails
    → m.mails.is_ptr_queue ≡ true
    → 0 < m.capacity
    → FirstWaits k m.recv_queue r rs dr
    → m.send_queue.count ≡ 0
    → k.mails dr.request_args.arg1 ≡ some old
    → dr.request_args.arg1 ≢ mail
    → kernel_mailbox_send_internal sender mb msg size blocking k
      ≡ ok 1 (
          handed_over
            (sent k mb m d mail msg size copy later)
            mb
            (record m { mails = appended m.mails mail })
            mail
            (record { ptr = copy; size = size; source = d.pid })
            r
            rs
            dr)
kernel_mailbox_send_internal-receiver k sender mb msg mail copy qe r size blocking later rs m d dr
      old e ed a none_left vm is_ptr room f idle there ne =
    let no_mails : m.mails.count ≡ 0 = vm.counted ∙ ap length none_left in
    let receivers : m.recv_queue.count ≡ suc (length rs) = f.valid.counted ∙ ap length f.first in
    let k' = sent k mb m d mail msg size copy later in
    let m' : Mailbox = record m { mails = appended m.mails mail } in
    let c : Mail = record { ptr = copy; size = size; source = d.pid } in
    let fuel : fuel_of m ≡ suc (suc (length rs)) = omega (arith, receivers, idle) in
    let vm' : IsValid (appended m.mails mail) = record {
      counted = omega (arith, vm.counted, length-append m.mails.elements (mail ∷ []));
      small = omega (arith, no_mails);
    } in
    let differ : (mail == dr.request_args.arg1) ≡ false =
      ==_ne mail dr.request_args.arg1 (λ same. ne (sym same)) in
    let sends =
      send_with-wakes (recv_from_queue (fuel_of m) mb) k sender mb msg mail copy qe size blocking
        later m d e ed a vm is_ptr (omega (arith, no_mails, room)) (omega (arith, receivers)) in
    let wakes =
      recv_from_queue-one (length rs) k' mb mail r rs m' c old dr (rw (==_refl mb) refl) vm'
        (ap (λ l. l ++ (mail ∷ [])) none_left)
        (record {
          valid = f.valid;
          first = f.first;
          holds = f.holds;
          waits_mailbox = f.waits_mailbox;
        })
        idle (rw (==_refl mail) refl) (rw differ there) in
    send_internal-loads k sender mb msg size blocking m e
    ∙ sends
    ∙ ap (λ n. and_then (recv_from_queue n mb k') (λ _. pure 1)) fuel
    ∙ ap (λ r. and_then r (λ _. pure 1)) wakes
