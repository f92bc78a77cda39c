-- ===== src/Mailbox/Transfer/Deliver.antt =====
-- A mail that is sent to a box with room, and received from a box with mails, while no task waits.
use ez_rtos.Queue.{Queue}
use ez_rtos.Mailbox.Transfer.{
  send_blocked, put_mail, copy_message, make_mail, send_with, recv_blocked, take_mail, recv_with,
  kernel_mailbox_send_internal, kernel_mailbox_recv_internal,
}
use ez_rtos.Kernel.State.{Kernel}
use ez_rtos.Kernel.Objects.{Mail, Mailbox}
use ez_rtos.Kernel.Types.{ProcessState, Pd}
use ez_rtos.Kernel.Run.{update, set_cell, take_answer, malloc, copy_bytes, memcpy, ok}
use ez_rtos.Base.{
  ℕ, suc, ◌+◌, ◌-◌, ◌≤◌, ◌<◌, ◌≡◌, refl, ◌≢◌, true, none, some, List, [], ◌∷◌, ◌++◌, arith, ◌==◌,
  if◌then◌else◌, length, Ptr, null,
}
use ez_rtos.Queue.Laws.{IsValid, enqueue_ptr-ptr, dequeue_ptr-cons}

-- A queue with one more element.
abbrev pub appended : Queue → ℕ → Queue
appended q v = record q { elements = q.elements ++ (v ∷ []); count = q.count + 1 }

-- The kernel after the mail of `d` at `mail` has been sent.
abbrev pub sent : Kernel → Ptr → Mailbox → Pd → Ptr → Ptr → ℕ → Ptr → List Ptr → Kernel
sent k mb m d mail msg size copy later = record k {
  mailboxes = set_cell k.mailboxes mb (some (record m { mails = appended m.mails mail }));
  mails = update k.mails mail (some (record { ptr = copy; size = size; source = d.pid }));
  bytes = copy_bytes size copy msg k.bytes;
  answers = later;
}

pub kernel_mailbox_send_internal-room :
    (k : Kernel) (sender mb msg mail copy qe : Ptr) (size blocking : ℕ) (later : List Ptr)
    (m : Mailbox) (d : Pd)
    → k.mailboxes.cell mb ≡ some m
    → k.tasks.cell sender ≡ some d
    → k.answers ≡ mail ∷ copy ∷ qe ∷ later
    → (mail ≢ null) × (copy ≢ null) × (qe ≢ null)
    → IsValid m.mails
    → m.mails.is_ptr_queue ≡ true
    → m.mails.count < m.capacity
    → m.recv_queue.count ≡ 0
    → kernel_mailbox_send_internal sender mb msg size blocking k
      ≡ ok 1 (sent k mb m d mail msg size copy later)
unfolding kernel_mailbox_send_internal send_with make_mail copy_message put_mail malloc take_answer
    memcpy
kernel_mailbox_send_internal-room k sender mb msg mail copy qe size blocking later m d e ed ea
      (hm, hc, hq) valid is_ptr room idle =
    let added = enqueue_ptr-ptr m.mails qe mail valid is_ptr hq in ground arith

-- The kernel after the oldest mail, at `mail` with the content `c`, has been received to `dest`.
abbrev pub received : Kernel → Ptr → Mailbox → List Ptr → Ptr → Mail → Ptr → Kernel
received k mb m rest mail c dest = record k {
  mailboxes =
      set_cell k.mailboxes mb (
        some
          (record m { mails = record (m.mails) { elements = rest; count = m.mails.count - 1 } }));
  mails = update (update k.mails dest (some c)) mail none;
}

pub kernel_mailbox_recv_internal-mail :
    (k : Kernel) (mb dest mail : Ptr) (rest : List Ptr) (blocking : ℕ) (m : Mailbox) (c old : Mail)
    → k.mailboxes.cell mb ≡ some m
    → IsValid m.mails
    → m.mails.elements ≡ mail ∷ rest
    → k.mails mail ≡ some c
    → k.mails dest ≡ some old
    → m.send_queue.count ≡ 0
    → kernel_mailbox_recv_internal mb dest blocking k ≡ ok 1 (received k mb m rest mail c dest)
unfolding kernel_mailbox_recv_internal recv_with take_mail
kernel_mailbox_recv_internal-mail k mb dest mail rest blocking m c old e valid first content there
      idle =
    let all : length m.mails.elements ≡ suc (length rest) = rw first refl in
    let some_mail : 0 < m.mails.count = omega (arith, valid.counted, all) in
    let taken = dequeue_ptr-cons m.mails mail rest valid first in ground arith

-- The task `d` at `p` waits for the box, which has become `m`.
abbrev pub put_to_wait : Kernel → Ptr → Mailbox → Ptr → Pd → List Ptr → Kernel
put_to_wait k mb m p d later = record k {
  mailboxes = set_cell k.mailboxes mb (some m);
  tasks = set_cell k.tasks p (some (record d { state = ProcessState.wait_mailbox }));
  kernel_request_cswitch = true;
  answers = later;
}

-- The mail at `dest` says that there is none.
abbrev pub cleared : Kernel → Ptr → Kernel
cleared k dest = record k {
  mails = update k.mails dest (some (record { ptr = null; size = 0; source = 0 }));
}

-- A sender that finds no room, and a receiver that finds no mail.
pub kernel_mailbox_send_internal-full :
    (k : Kernel) (sender mb msg qe : Ptr) (size blocking : ℕ) (later : List Ptr) (m : Mailbox)
    (d : Pd)
    → k.mailboxes.cell mb ≡ some m
    → k.tasks.cell sender ≡ some d
    → k.answers ≡ qe ∷ later
    → qe ≢ null
    → IsValid m.send_queue
    → m.send_queue.is_ptr_queue ≡ true
    → m.capacity ≤ m.mails.count
    → kernel_mailbox_send_internal sender mb msg size blocking k ≡ (
        if blocking == 0
        then ok 0 k
        else ok 65535 (
            put_to_wait k mb
              (record m { send_queue = appended m.send_queue sender })
              sender
              d
              later))
unfolding kernel_mailbox_send_internal send_with send_blocked malloc take_answer
kernel_mailbox_send_internal-full k sender mb msg qe size blocking later m d e ed ea hq valid is_ptr
      full =
    let added = enqueue_ptr-ptr m.send_queue qe sender valid is_ptr hq in ground arith

pub kernel_mailbox_recv_internal-empty :
    (k : Kernel) (mb dest qe : Ptr) (blocking : ℕ) (later : List Ptr) (m : Mailbox) (d : Pd)
    (old : Mail)
    → k.mailboxes.cell mb ≡ some m
    → k.tasks.cell k.current_process ≡ some d
    → k.mails dest ≡ some old
    → k.answers ≡ qe ∷ later
    → qe ≢ null
    → IsValid m.recv_queue
    → m.recv_queue.is_ptr_queue ≡ true
    → m.mails.count ≡ 0
    → kernel_mailbox_recv_internal mb dest blocking k ≡ (
        if blocking == 0
        then ok 0 (cleared k dest)
        else ok 65535 (
            put_to_wait k mb
              (record m { recv_queue = appended m.recv_queue k.current_process })
              k.current_process
              d
              later))
unfolding kernel_mailbox_recv_internal recv_with recv_blocked malloc take_answer
kernel_mailbox_recv_internal-empty k mb dest qe blocking later m d old e ed there ea hq valid is_ptr
      none_left =
    let added = enqueue_ptr-ptr m.recv_queue qe k.current_process valid is_ptr hq in ground arith
