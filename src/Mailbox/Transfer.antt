-- ===== src/Mailbox/Transfer.antt =====
-- Sending and receiving mails (p2/rtos/kernel/mailbox/mailbox.c). The two internal functions call one
-- another through the queues of waiting tasks, on fuel. The result -1 of a call that waits is the
-- word 65535.
pub mod Deliver
pub mod Ends
pub mod Requests
pub mod Refill
pub mod HandOver
pub mod RoundTrip
use ez_rtos.Queue.{enqueue_ptr, dequeue_ptr}
use ez_rtos.Kernel.Types.{
  ErrorCode, ProcessState, is_wait_mailbox, unprocessable_task_state_err, object_not_found_err,
  malloc_failed_err, ready, wait_mailbox,
}
use ez_rtos.Kernel.Objects.{Mailbox}
use ez_rtos.Kernel.Run.{
  M, pure, ◌>>=◌, ◌>>◌, done, from_option, load_pd, load_mailbox, load_mail, store_mailbox,
  store_mail, set_state, set_retval, current, request_cswitch, raise_error, malloc, memcpy, fault,
  out_of_fuel,
}
use ez_rtos.Base.{
  ℕ, zero, suc, ◌+◌, ◌&&◌, none, some, ltb, leb, ◌==◌, if◌then◌else◌, Ptr, null, is_negative,
}
use ez_rtos.Mailbox.{find_mailbox_by_id}

-- A sender that finds no room.
send_blocked : Ptr → Ptr → ℕ → M ℕ
unfolding malloc
send_blocked sender mb blocking = if blocking == 0 then pure 0 else (do
  m ← load_mailbox mb
  qe ← malloc
  (q, _) ← from_option (enqueue_ptr m.send_queue qe sender)
  store_mailbox mb (some (record m { send_queue = q }))
  set_state sender ProcessState.wait_mailbox
  request_cswitch
  pure 65535)

-- The new mail goes into the queue, and `wake` serves the tasks that wait for one.
put_mail : M (Unit {0}) → Ptr → Ptr → M ℕ
unfolding malloc
put_mail wake mb mail = do
  m ← load_mailbox mb
  qe ← malloc
  (q, _) ← from_option (enqueue_ptr m.mails qe mail)
  store_mailbox mb (some (record m { mails = q }))
  if ltb 0 m.recv_queue.count then wake else done
  pure 1

-- The message is copied into what was allocated for it. The mail stays allocated if that is NULL.
copy_message : M (Unit {0}) → Ptr → Ptr → Ptr → Ptr → ℕ → M ℕ
unfolding memcpy put_mail
copy_message wake mb mail copy msg size =
    if copy == null
    then (raise_error ErrorCode.malloc_failed_err >> pure 0)
    else (memcpy copy msg size >> put_mail wake mb mail)

-- The mail object and the copy of the message are allocated.
make_mail : M (Unit {0}) → Ptr → Ptr → Ptr → ℕ → M ℕ
unfolding malloc copy_message
make_mail wake sender mb msg size = do
  mail ← malloc
  if mail == null then (λ _. fault) else (do
    d ← load_pd sender
    copy ← malloc
    store_mail mail (some (record { ptr = copy; size = size; source = d.pid }))
    copy_message wake mb mail copy msg size)

-- `Kernel_Mailbox_Send_Internal`, with the call that wakes receivers as an argument.
send_with : M (Unit {0}) → Ptr → Ptr → Ptr → ℕ → ℕ → M ℕ
unfolding send_blocked make_mail
send_with wake sender mb msg size blocking = do
  m ← load_mailbox mb
  if leb m.capacity m.mails.count
      then send_blocked sender mb blocking
      else make_mail wake sender mb msg size

-- A receiver that finds no mail. When it waits it is the current process.
recv_blocked : Ptr → Ptr → ℕ → M ℕ
unfolding malloc
recv_blocked mb dest blocking =
    if blocking == 0
    then (do
      _ ← load_mail dest
      store_mail dest (some (record { ptr = null; size = 0; source = 0 }))
      pure 0)
    else (do
      p ← current
      m ← load_mailbox mb
      qe ← malloc
      (q, _) ← from_option (enqueue_ptr m.recv_queue qe p)
      store_mailbox mb (some (record m { recv_queue = q }))
      set_state p ProcessState.wait_mailbox
      request_cswitch
      pure 65535)

-- The oldest mail is copied to the receiver's and freed, and `wake` serves the tasks that wait to send.
take_mail : M (Unit {0}) → Ptr → Ptr → M ℕ
take_mail wake mb dest = do
  m ← load_mailbox mb
  let (mail, q) = dequeue_ptr m.mails
  store_mailbox mb (some (record m { mails = q }))
  content ← load_mail mail
  _ ← load_mail dest
  store_mail dest (some content)
  store_mail mail none
  if ltb 0 m.send_queue.count then wake else done
  pure 1

-- `Kernel_Mailbox_Recv_Internal`, with the call that wakes senders as an argument.
recv_with : M (Unit {0}) → Ptr → Ptr → ℕ → M ℕ
unfolding recv_blocked take_mail
recv_with wake mb dest blocking = do
  m ← load_mailbox mb
  if m.mails.count == 0 then recv_blocked mb dest blocking else take_mail wake mb dest

-- The rest of a round of `Kernel_Mailbox_Send_From_Queue` once `p` has left the queue: `send` sends its
-- mail, and `rest` is the next round.
wake_sender : (Ptr → Ptr → ℕ → M ℕ) → M (Unit {0}) → Ptr → M (Unit {0})
wake_sender send rest p = do
  d ← load_pd p
  if is_wait_mailbox d.state
      then (do
        _ ← send p d.request_args.arg1 d.request_args.arg2
        set_state p ProcessState.ready
        rest)
      else raise_error ErrorCode.unprocessable_task_state_err

-- A round of that loop.
send_round : (Ptr → Ptr → ℕ → M ℕ) → M (Unit {0}) → Ptr → M (Unit {0})
unfolding wake_sender
send_round send rest mb = do
  m ← load_mailbox mb
  if ltb 0 m.send_queue.count && ltb m.mails.count m.capacity
      then (do
        let (p, q) = dequeue_ptr m.send_queue
        store_mailbox mb (some (record m { send_queue = q }))
        wake_sender send rest p)
      else done

-- The same for `Kernel_Mailbox_Recv_From_Queue`.
wake_receiver : (Ptr → M ℕ) → M (Unit {0}) → Ptr → M (Unit {0})
wake_receiver recv rest p = do
  d ← load_pd p
  if is_wait_mailbox d.state
      then (do _ ← recv d.request_args.arg1; set_state p ProcessState.ready; rest)
      else raise_error ErrorCode.unprocessable_task_state_err

recv_round : (Ptr → M ℕ) → M (Unit {0}) → Ptr → M (Unit {0})
unfolding wake_receiver
recv_round recv rest mb = do
  m ← load_mailbox mb
  if ltb 0 m.recv_queue.count && ltb 0 m.mails.count
      then (do
        let (p, q) = dequeue_ptr m.recv_queue
        store_mailbox mb (some (record m { recv_queue = q }))
        wake_receiver recv rest p)
      else done

-- The two loops over the queues of waiting tasks, which call one another, on fuel.
mutual
  unfolding send_with recv_with send_round recv_round

  pub send_from_queue : ℕ → Ptr → M (Unit {0})
  send_from_queue zero mb k = out_of_fuel
  send_from_queue (suc n) mb k =
      send_round (λ p msg size. send_with (recv_from_queue n mb) p mb msg size 0)
        (send_from_queue n mb) mb k

  pub recv_from_queue : ℕ → Ptr → M (Unit {0})
  recv_from_queue zero mb k = out_of_fuel
  recv_from_queue (suc n) mb k =
      recv_round (λ dest. recv_with (send_from_queue n mb) mb dest 0) (recv_from_queue n mb) mb k

-- Each round takes a task off a queue of waiting tasks.
abbrev pub fuel_of : Mailbox → ℕ
fuel_of m = suc (m.send_queue.count + m.recv_queue.count)

pub kernel_mailbox_send_internal : Ptr → Ptr → Ptr → ℕ → ℕ → M ℕ
unfolding send_with recv_from_queue
kernel_mailbox_send_internal sender mb msg size blocking = do
  m ← load_mailbox mb
  send_with (recv_from_queue (fuel_of m) mb) sender mb msg size blocking

pub kernel_mailbox_recv_internal : Ptr → Ptr → ℕ → M ℕ
unfolding recv_with send_from_queue
kernel_mailbox_recv_internal mb dest blocking = do
  m ← load_mailbox mb
  recv_with (send_from_queue (fuel_of m) mb) mb dest blocking

-- `if(retval >= 0) Current_Process->request_retval = retval;`
reply_unless_waiting : ℕ → M (Unit {0})
reply_unless_waiting v = if is_negative v then done else (current >>= λ p. set_retval p v)

unfoldable pub kernel_mailbox_send : M (Unit {0})
unfolding find_mailbox_by_id kernel_mailbox_send_internal reply_unless_waiting
kernel_mailbox_send = do
  p ← current
  me ← load_pd p
  mb ← find_mailbox_by_id me.request_args.arg0
  if mb == null then (raise_error ErrorCode.object_not_found_err >> set_retval p 0) else (do
    v ←
        kernel_mailbox_send_internal p mb me.request_args.arg1 me.request_args.arg2
          me.request_args.arg3
    reply_unless_waiting v)

unfoldable pub kernel_mailbox_recv : M (Unit {0})
unfolding find_mailbox_by_id kernel_mailbox_recv_internal reply_unless_waiting
kernel_mailbox_recv = do
  p ← current
  me ← load_pd p
  mb ← find_mailbox_by_id me.request_args.arg0
  if mb == null then (raise_error ErrorCode.object_not_found_err >> set_retval p 0) else (do
    v ← kernel_mailbox_recv_internal mb me.request_args.arg1 me.request_args.arg2
    reply_unless_waiting v)
