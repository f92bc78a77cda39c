-- ===== src/Mailbox/Transfer/Requests.antt =====
-- `Kernel_Mailbox_Send` and `Kernel_Mailbox_Recv` while no other task waits for the box.
pub mod Branches
use ez_rtos.PtrList.{nodes}
use ez_rtos.PtrList.Walk.{first_object}
use ez_rtos.Mailbox.{find_mailbox_by_id}
use ez_rtos.Mailbox.Transfer.{
  kernel_mailbox_send_internal, kernel_mailbox_recv_internal, reply_unless_waiting,
  kernel_mailbox_send, kernel_mailbox_recv,
}
use ez_rtos.Mailbox.Transfer.Deliver.{
  appended, sent, kernel_mailbox_send_internal-room, received, kernel_mailbox_recv_internal-mail,
  put_to_wait, cleared, kernel_mailbox_send_internal-full, kernel_mailbox_recv_internal-empty,
}
use ez_rtos.Kernel.State.{Kernel}
use ez_rtos.Kernel.Objects.{Mail, Mailbox}
use ez_rtos.Kernel.Types.{Pd}
use ez_rtos.Kernel.Run.{and_then, set_cell, set_retval, ok}
use ez_rtos.Base.{
  ℕ, ◌≤◌, ◌<◌, ◌≡◌, refl, ap, ◌∙◌, ◌≢◌, Bool, true, false, some, List, ◌∷◌, arith, ◌==◌,
  if◌then◌else◌, Ptr, null,
}
use ez_rtos.Queue.Laws.{IsValid}

-- `mb` is the box that the search for `id` finds.
pub record Finds (k : Kernel) (id : ℕ) (mb : Ptr) (m : Mailbox) : Type 0 where
  pub named : id ≢ 0
  pub first : first_object k.mailboxes.cell (λ x. x.id == id) (nodes k.mailboxes.list) ≡ some mb
  pub ne_null : mb ≢ null
  pub holds : k.mailboxes.cell mb ≡ some m

find_mailbox_by_id-Finds :
    (k : Kernel) (id : ℕ) (mb : Ptr) (m : Mailbox)
    → Finds k id mb m
    → find_mailbox_by_id id k ≡ ok mb k
unfolding find_mailbox_by_id
find_mailbox_by_id-Finds k id mb m f =
    let named = f.named in let first = f.first in let ne_null = f.ne_null in ground arith

-- The task at `p` with a result.
abbrev pub with_retval : Kernel → Ptr → Pd → ℕ → Kernel
with_retval k p d v = record k {
  tasks = set_cell k.tasks p (some (record d { request_retval = v }));
}

set_retval-some :
    (k : Kernel) (v : ℕ) (d : Pd)
    → k.tasks.cell k.current_process ≡ some d
    → set_retval k.current_process v k ≡ ok tt (with_retval k k.current_process d v)
set_retval-some k v d e = ground arith

-- The caller is told that nothing was done, or waits and is told nothing.
reply_or_wait :
    (b : Bool) (k later : Kernel) (d : Pd)
    → k.tasks.cell k.current_process ≡ some d
    → and_then (if b then ok 0 k else ok 65535 later) reply_unless_waiting
      ≡ (if b then ok tt (with_retval k k.current_process d 0) else ok tt later)
unfolding reply_unless_waiting
reply_or_wait true k later d e = set_retval-some k 0 d e
reply_or_wait false k later d e = refl

module _ (k : Kernel) (d : Pd) (mb : Ptr) (m : Mailbox)
    (caller : k.tasks.cell k.current_process ≡ some d) (f : Finds k d.request_args.arg0 mb m) where
  kernel_mailbox_send-internal :
      kernel_mailbox_send k
      ≡ and_then
          (kernel_mailbox_send_internal k.current_process mb d.request_args.arg1 d.request_args.arg2
            d.request_args.arg3 k)
          reply_unless_waiting
  unfolding kernel_mailbox_send
  kernel_mailbox_send-internal =
      let found = find_mailbox_by_id-Finds k d.request_args.arg0 mb m f in
      let ne_null = f.ne_null in ground arith

  kernel_mailbox_recv-internal :
      kernel_mailbox_recv k
      ≡ and_then
          (kernel_mailbox_recv_internal mb d.request_args.arg1 d.request_args.arg2 k)
          reply_unless_waiting
  unfolding kernel_mailbox_recv
  kernel_mailbox_recv-internal =
      let found = find_mailbox_by_id-Finds k d.request_args.arg0 mb m f in
      let ne_null = f.ne_null in ground arith

  pub kernel_mailbox_send-room :
      (mail copy qe : Ptr) (later : List Ptr)
      → k.answers ≡ mail ∷ copy ∷ qe ∷ later
      → (mail ≢ null) × (copy ≢ null) × (qe ≢ null)
      → IsValid m.mails
      → m.mails.is_ptr_queue ≡ true
      → m.mails.count < m.capacity
      → m.recv_queue.count ≡ 0
      → kernel_mailbox_send k
        ≡ ok tt (
            with_retval
              (sent k mb m d mail d.request_args.arg1 d.request_args.arg2 copy later)
              k.current_process
              d
              1)
  unfolding reply_unless_waiting
  kernel_mailbox_send-room mail copy qe later ea h valid is_ptr room idle =
      let out =
        kernel_mailbox_send_internal-room k k.current_process mb d.request_args.arg1 mail copy qe
          d.request_args.arg2 d.request_args.arg3 later m d f.holds caller ea h valid is_ptr room
          idle in
      kernel_mailbox_send-internal
      ∙ ap (λ r. and_then r reply_unless_waiting) out
      ∙ set_retval-some _ 1 d caller

  kernel_mailbox_send-full :
      (qe : Ptr) (later : List Ptr)
      → k.answers ≡ qe ∷ later
      → qe ≢ null
      → IsValid m.send_queue
      → m.send_queue.is_ptr_queue ≡ true
      → m.capacity ≤ m.mails.count
      → kernel_mailbox_send k ≡ (
          if d.request_args.arg3 == 0
          then ok tt (with_retval k k.current_process d 0)
          else ok tt (
              put_to_wait k mb
                (record m { send_queue = appended m.send_queue k.current_process })
                k.current_process
                d
                later))
  unfolding reply_unless_waiting
  kernel_mailbox_send-full qe later ea h valid is_ptr full =
      let out =
        kernel_mailbox_send_internal-full k k.current_process mb d.request_args.arg1 qe
          d.request_args.arg2 d.request_args.arg3 later m d f.holds caller ea h valid is_ptr full in
      kernel_mailbox_send-internal
      ∙ ap (λ r. and_then r reply_unless_waiting) out
      ∙ reply_or_wait (d.request_args.arg3 == 0) k _ d caller

  kernel_mailbox_recv-mail :
      (mail : Ptr) (rest : List Ptr) (c old : Mail)
      → IsValid m.mails
      → m.mails.elements ≡ mail ∷ rest
      → k.mails mail ≡ some c
      → k.mails d.request_args.arg1 ≡ some old
      → m.send_queue.count ≡ 0
      → kernel_mailbox_recv k
        ≡ ok tt
            (with_retval (received k mb m rest mail c d.request_args.arg1) k.current_process d 1)
  unfolding reply_unless_waiting
  kernel_mailbox_recv-mail mail rest c old valid first content there idle =
      let out =
        kernel_mailbox_recv_internal-mail k mb d.request_args.arg1 mail rest d.request_args.arg2 m c
          old f.holds valid first content there idle in
      kernel_mailbox_recv-internal
      ∙ ap (λ r. and_then r reply_unless_waiting) out
      ∙ set_retval-some _ 1 d caller

  kernel_mailbox_recv-empty :
      (qe : Ptr) (later : List Ptr) (old : Mail)
      → k.mails d.request_args.arg1 ≡ some old
      → k.answers ≡ qe ∷ later
      → qe ≢ null
      → IsValid m.recv_queue
      → m.recv_queue.is_ptr_queue ≡ true
      → m.mails.count ≡ 0
      → kernel_mailbox_recv k ≡ (
          if d.request_args.arg2 == 0
          then ok tt (with_retval (cleared k d.request_args.arg1) k.current_process d 0)
          else ok tt (
              put_to_wait k mb
                (record m { recv_queue = appended m.recv_queue k.current_process })
                k.current_process
                d
                later))
  unfolding reply_unless_waiting
  kernel_mailbox_recv-empty qe later old there ea h valid is_ptr none_left =
      let out =
        kernel_mailbox_recv_internal-empty k mb d.request_args.arg1 qe d.request_args.arg2 later m d
          old f.holds caller there ea h valid is_ptr none_left in
      kernel_mailbox_recv-internal
      ∙ ap (λ r. and_then r reply_unless_waiting) out
      ∙ reply_or_wait (d.request_args.arg2 == 0) (cleared k d.request_args.arg1) _ d caller
