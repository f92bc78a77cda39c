-- ===== src/Mailbox/Transfer/Requests/Branches.antt =====
-- `Kernel_Mailbox_Send` and `Kernel_Mailbox_Recv`, on all branches, while no other task waits for the
-- box (p2/rtos/kernel/mailbox/mailbox.c).
use ez_rtos.Mailbox.Transfer.{kernel_mailbox_send, kernel_mailbox_recv}
use ez_rtos.Mailbox.Transfer.Deliver.{appended, sent, received, put_to_wait, cleared}
use ez_rtos.Mailbox.Transfer.Requests.{
  Finds, with_retval, kernel_mailbox_send-room, kernel_mailbox_send-full, kernel_mailbox_recv-mail,
  kernel_mailbox_recv-empty,
}
use ez_rtos.Queue.Laws.{IsValid}
use ez_rtos.Kernel.State.{Kernel}
use ez_rtos.Kernel.Objects.{Mail, Mailbox}
use ez_rtos.Kernel.Types.{Pd}
use ez_rtos.Kernel.Run.{ok}
use ez_rtos.Base.{
  ◌≡◌, refl, ap, ◌∙◌, ◌≢◌, Bool, true, false, some, List, [], ◌∷◌, leb, ◌==◌, if◌then◌else◌,
  leb-false, leb-true, length, Ptr, null,
}

module _ (k : Kernel) (d : Pd) (mb : Ptr) (m : Mailbox)
    (caller : k.tasks.cell k.current_process ≡ some d) (f : Finds k d.request_args.arg0 mb m) where
  -- Kernel_Mailbox_Send to a box with room puts a mail with a copy of the message at the end of its
  -- mails, and returns 1 to the caller. To a full box it returns 0 and changes nothing else when
  -- the caller does not want to wait; when it does, the caller goes to the end of the tasks that
  -- wait to send, waits, asks for a switch, and gets no result. The box is the one that the search
  -- finds, its queues are valid, no task waits for a mail, and the three allocations succeed.
  pub kernel_mailbox_send_lem :
      (mail copy qe : Ptr) (later : List Ptr)
      → k.answers ≡ mail ∷ copy ∷ qe ∷ later
      → (mail ≢ null) × (copy ≢ null) × (qe ≢ null)
      → IsValid m.mails
      → m.mails.is_ptr_queue ≡ true
      → IsValid m.send_queue
      → m.send_queue.is_ptr_queue ≡ true
      → m.recv_queue.count ≡ 0
      → kernel_mailbox_send k ≡ (
          if leb m.capacity m.mails.count
          then (if d.request_args.arg3 == 0
              then ok tt (with_retval k k.current_process d 0)
              else ok tt (
                  put_to_wait k mb
                    (record m { send_queue = appended m.send_queue k.current_process })
                    k.current_process
                    d
                    (copy ∷ qe ∷ later)))
          else ok tt (
              with_retval
                (sent k mb m d mail d.request_args.arg1 d.request_args.arg2 copy later)
                k.current_process
                d
                1))
  kernel_mailbox_send_lem mail copy qe later ea h vm pm vs ps idle =
      by_room (leb m.capacity m.mails.count) refl
    where
      by_room :
          (b : Bool)
          → leb m.capacity m.mails.count ≡ b
          → kernel_mailbox_send k ≡ (
              if b
              then (if d.request_args.arg3 == 0
                  then ok tt (with_retval k k.current_process d 0)
                  else ok tt (
                      put_to_wait k mb
                        (record m { send_queue = appended m.send_queue k.current_process })
                        k.current_process
                        d
                        (copy ∷ qe ∷ later)))
              else ok tt (
                  with_retval
                    (sent k mb m d mail d.request_args.arg1 d.request_args.arg2 copy later)
                    k.current_process
                    d
                    1))
      by_room true t =
          kernel_mailbox_send-full k d mb m caller f mail (copy ∷ qe ∷ later) ea h.0 vs ps
            (leb-true _ _ t)
      by_room false room =
          kernel_mailbox_send-room k d mb m caller f mail copy qe later ea h vm pm
            (leb-false _ _ room) idle

  -- Kernel_Mailbox_Recv from a box with a mail takes the oldest one, copies it to the mail that the
  -- caller names, frees it, and returns 1. From a box without mails it clears the caller's mail and
  -- returns 0 when the caller does not want to wait; when it does, the caller goes to the end of
  -- the tasks that wait for a mail, waits, asks for a switch, and gets no result. The box is the
  -- one that the search finds, its queues are valid, no task waits to send, the mails named are in
  -- memory, and the allocation succeeds.
  pub kernel_mailbox_recv_lem :
      (qe : Ptr) (later : List Ptr) (c old : Mail)
      → IsValid m.mails
      → ((mail : Ptr) (rest : List Ptr) → m.mails.elements ≡ mail ∷ rest → k.mails mail ≡ some c)
      → k.mails d.request_args.arg1 ≡ some old
      → k.answers ≡ qe ∷ later
      → qe ≢ null
      → IsValid m.recv_queue
      → m.recv_queue.is_ptr_queue ≡ true
      → m.send_queue.count ≡ 0
      → kernel_mailbox_recv k ≡ elim m.mails.elements [
        | [] ↦
            if d.request_args.arg2 == 0
            then ok tt (with_retval (cleared k d.request_args.arg1) k.current_process d 0)
            else ok tt (
                put_to_wait k mb
                  (record m { recv_queue = appended m.recv_queue k.current_process })
                  k.current_process
                  d
                  later)
        | mail ∷ rest ↦
            ok tt
              (with_retval (received k mb m rest mail c d.request_args.arg1) k.current_process d 1)
      ]
  kernel_mailbox_recv_lem qe later c old vm holds there ea h vr pr idle =
      by_mails m.mails.elements refl
    where
      by_mails :
          (l : List Ptr)
          → m.mails.elements ≡ l
          → kernel_mailbox_recv k ≡ elim l [
            | [] ↦
                if d.request_args.arg2 == 0
                then ok tt (with_retval (cleared k d.request_args.arg1) k.current_process d 0)
                else ok tt (
                    put_to_wait k mb
                      (record m { recv_queue = appended m.recv_queue k.current_process })
                      k.current_process
                      d
                      later)
            | mail ∷ rest ↦ ok tt (
                with_retval (received k mb m rest mail c d.request_args.arg1) k.current_process d 1)
          ]
      by_mails [] e =
          kernel_mailbox_recv-empty k d mb m caller f qe later old there ea h vr pr
            (vm.counted ∙ ap length e)
      by_mails (mail ∷ rest) e =
          kernel_mailbox_recv-mail k d mb m caller f mail rest c old vm e (holds mail rest e) there
            idle
