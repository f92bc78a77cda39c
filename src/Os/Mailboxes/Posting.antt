-- ===== src/Os/Mailboxes/Posting.antt =====
-- The call `Mailbox_Send` from its start to the return of the calling task.
use ez_rtos.Os.{entered}
use ez_rtos.Os.Mailboxes.{mailbox_send_helper, mailbox_send}
use ez_rtos.Queue.Laws.{IsValid}
use ez_rtos.Kernel.Types.{ErrorCode, KernelRequest, Pd}
use ez_rtos.Kernel.State.{Kernel}
use ez_rtos.Kernel.Objects.{Mailbox}
use ez_rtos.Kernel.Run.{◌>>=◌, set_cell, copy_bytes, ok}
use ez_rtos.Main.{Outside, serve_request, main_loop_pass}
use ez_rtos.Main.Pass.{entering, main_loop_pass_returns}
use ez_rtos.Mailbox.Transfer.Deliver.{appended, sent}
use ez_rtos.Mailbox.Transfer.Requests.{Finds, with_retval, kernel_mailbox_send-room}
use ez_rtos.Mailbox.Transfer.RoundTrip.{Allocates}
use ez_rtos.Base.{ℕ, ◌<◌, ◌≡◌, refl, true, false, some, List, arith, ==_refl, Ptr}

-- The caller with its request, as it is while the request is served, and back with the result 1.
abbrev pub sends : Pd → ℕ → Ptr → ℕ → Pd
sends me id msg size = record me {
  request = KernelRequest.mb_sendmail;
  request_args = record (me.request_args) { arg0 = id; arg1 = msg; arg2 = size; arg3 = 0 };
}

abbrev pub sending : Pd → ℕ → Ptr → ℕ → Ptr → Pd
sending me id msg size sp = record (sends me id msg size) { sp = sp }

abbrev pub sent_back : Pd → ℕ → Ptr → ℕ → Ptr → Pd
sent_back me id msg size sp = record (sending me id msg size sp) {
  request = KernelRequest.none_request;
  request_retval = 1;
}

-- What the call leaves: the box has one mail more, at `mail` with a copy of the message at `copy`, and
-- the caller goes on where it was.
pub record Posts (k : Kernel) (me : Pd) (id : ℕ) (msg : Ptr) (size : ℕ) (mb : Ptr) (m : Mailbox)
    (mail copy : Ptr) (k' : Kernel) : Type 0 where
  pub goes_on : k'.current_process ≡ k.current_process
  pub same_sp : k'.current_sp ≡ k.current_sp
  pub no_error : k'.err ≡ ErrorCode.no_err
  pub caller_back : k'.tasks.cell k.current_process ≡ some (sent_back me id msg size k.current_sp)
  pub box : k'.mailboxes.cell mb ≡ some (record m { mails = appended m.mails mail })
  pub content : k'.mails mail ≡ some (record { ptr = copy; size = size; source = me.pid })
  pub copied : k'.bytes ≡ copy_bytes size copy msg k.bytes

module _ (o : Outside) (k : Kernel) (me : Pd) (id : ℕ) (msg : Ptr) (size : ℕ) (mb : Ptr)
    (m : Mailbox) (mail copy qe : Ptr) (later : List Ptr)
    (caller : k.tasks.cell k.current_process ≡ some me) (f : Finds k id mb m)
    (a : Allocates k mail copy qe later) (valid : IsValid m.mails)
    (is_ptr : m.mails.is_ptr_queue ≡ true) (room : m.mails.count < m.capacity)
    (idle : m.recv_queue.count ≡ 0) (active : k.kernel_active ≡ true)
    (quiet : k.kernel_request_cswitch ≡ false) where
  abbrev submitted : Kernel
  submitted = record k { tasks = set_cell k.tasks k.current_process (some (sends me id msg size)) }

  submits : mailbox_send id msg size k ≡ ok entered submitted
  unfolding mailbox_send mailbox_send_helper
  submits = ground arith

  abbrev serving : Kernel
  serving = entering submitted (sends me id msg size)

  abbrev served : Kernel
  served =
      with_retval (sent serving mb m (sending me id msg size k.current_sp) mail msg size copy later)
        k.current_process (sending me id msg size k.current_sp) 1

  serves : serve_request o KernelRequest.mb_sendmail serving ≡ ok tt served
  unfolding serve_request
  serves =
      kernel_mailbox_send-room serving (sending me id msg size k.current_sp) mb m
        (rw (==_refl k.current_process) refl)
        (record { named = f.named; first = f.first; ne_null = f.ne_null; holds = f.holds }) mail
        copy qe later a.answered a.ne_null valid is_ptr room idle

  abbrev left_behind : Kernel
  left_behind = record served {
    current_sp = k.current_sp;
    tasks = set_cell served.tasks k.current_process (some (sent_back me id msg size k.current_sp));
  }

  returns : main_loop_pass o submitted ≡ ok tt left_behind
  returns =
      main_loop_pass_returns o submitted served (sends me id msg size)
        (record (sending me id msg size k.current_sp) { request_retval = 1 })
        (rw (==_refl k.current_process) refl) serves (rw (==_refl k.current_process) refl) quiet

  -- Mailbox_Send and the pass of the main loop that it enters together put a mail with a copy of
  -- the message into the box that has the identifier, and return to the caller, which goes on at
  -- its own stack pointer, with 1 as its result, no error and its request cleared. The kernel is
  -- active with no switch asked for, the box is the one that the search finds and has room, its
  -- mails are valid, no task waits for one, and the three allocations succeed.
  pub mailbox_send-Posts :
      (k' : Kernel) × ((mailbox_send id msg size >>= λ _. main_loop_pass o) k ≡ ok tt k')
      × Posts k me id msg size mb m mail copy k'
  mailbox_send-Posts = (
    left_behind,
    rw submits returns,
    record {
      goes_on = refl;
      same_sp = refl;
      no_error = refl;
      caller_back = rw (==_refl k.current_process) refl;
      box = rw (==_refl mb) refl;
      content = rw (==_refl mail) refl;
      copied = refl;
    },
  )
