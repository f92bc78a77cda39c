-- ===== src/Mailbox.antt =====
-- p2/rtos/kernel/mailbox/mailbox.c: bounded boxes of mails, which tasks send and receive. This file
-- has all but the sending and receiving, which is in Mailbox/Transfer.antt.
pub mod Destroy
pub mod Keeps
pub mod Sound
pub mod Transfer
use mathlib.Core.Option
use ez_rtos.PtrList.Walk.{first_object, stop_at}
use ez_rtos.Queue.{new_ptr_queue, free_queue}
use ez_rtos.Kernel.Objects.{Mailbox}
use ez_rtos.Kernel.Run.{
  M, pure, ◌>>=◌, ◌>>◌, done, from_option, get, put, load_pd, load_mailbox, load_mail,
  store_mailbox, store_mail, set_retval, current, raise_error, malloc, list_add, ok, fault,
}
use ez_rtos.Base.{
  ℕ, Option, none, some, map, leb, ◌==◌, if◌then◌else◌, Ptr, null, add_word, sub_word,
}
use ez_rtos.Kernel.Types.{ErrorCode, invalid_arg_err, max_object_err, object_not_found_err}
use ez_rtos.PtrList.{PtrList, nodes, empty, ptrlist_remove}

abbrev pub max_mailbox : ℕ
max_mailbox = 8

unfoldable pub mailbox_reset : M (Unit {0})
mailbox_reset k = ok tt (record k {
  mailboxes = record (k.mailboxes) { list = empty k.mailboxes.list.addr; count = 0; last_id = 0 };
})

unfoldable pub find_mailbox_by_id : ℕ → M Ptr
find_mailbox_by_id mb =
    if mb == 0 then (raise_error ErrorCode.invalid_arg_err >> pure null) else (do
      k ← get
      found ← from_option (first_object k.mailboxes.cell (λ m. m.id == mb) (nodes k.mailboxes.list))
      if found == null
          then (raise_error ErrorCode.object_not_found_err >> pure null)
          else pure found)

new_mailbox : ℕ → ℕ → Mailbox
new_mailbox id capacity = record {
  id = id;
  capacity = capacity;
  mails = new_ptr_queue;
  send_queue = new_ptr_queue;
  recv_queue = new_ptr_queue;
}

-- What follows the allocation of the object and of its list node.
register_mailbox : Ptr → PtrList → ℕ → M ℕ
unfolding new_mailbox
register_mailbox mb list capacity k =
    let id = add_word k.mailboxes.last_id 1 in
    (put (record k {
      mailboxes = record (k.mailboxes) {
        list = list;
        count = add_word k.mailboxes.count 1;
        last_id = id;
      };
    })
        >> (if mb == null then (λ _. fault) else store_mailbox mb (some (new_mailbox id capacity)))
        >> pure id)
      k

unfoldable pub kernel_create_mailbox_direct : ℕ → M ℕ
unfolding register_mailbox malloc list_add
kernel_create_mailbox_direct capacity = do
  k ← get
  if leb max_mailbox k.mailboxes.count
      then (raise_error ErrorCode.max_object_err >> pure 0)
      else (do mb ← malloc; list ← list_add k.mailboxes.list mb; register_mailbox mb list capacity)

unfoldable pub kernel_create_mailbox : M (Unit {0})
unfolding kernel_create_mailbox_direct
kernel_create_mailbox = do
  p ← current
  me ← load_pd p
  id ← kernel_create_mailbox_direct me.request_args.arg0
  set_retval p id

-- The four calls of `free_queue`, the last of which finds the queue of mails empty.
free_queues : Mailbox → Option Mailbox
unfolding free_queue
free_queues m = elim (free_queue m.mails) [
  | none ↦ none
  | some mails ↦ elim (free_queue m.send_queue) [
    | none ↦ none
    | some senders ↦ elim (free_queue m.recv_queue) [
      | none ↦ none
      | some receivers ↦
          Option.map (λ q. record m { mails = q; send_queue = senders; recv_queue = receivers })
            (free_queue mails)
    ]
  ]
]

-- From the first `free_queue` on. The mails of the queue are not freed, only its elements.
drop_mailbox : Ptr → Ptr → M (Unit {0})
unfolding free_queues
drop_mailbox i mb = do
  m ← load_mailbox mb
  m' ← from_option (free_queues m)
  store_mailbox mb (some m')
  store_mailbox mb none
  k ← get
  (list, _) ← from_option (ptrlist_remove k.mailboxes.list i)
  put (record k {
    mailboxes = record (k.mailboxes) { list = list; count = sub_word k.mailboxes.count 1 };
  })

unfoldable pub kernel_destroy_mailbox : M (Unit {0})
unfolding drop_mailbox
kernel_destroy_mailbox = do
  p ← current
  me ← load_pd p
  k ← get
  (i, mb) ←
      from_option
        (stop_at k.mailboxes.cell (λ m. m.id == me.request_args.arg0) null (nodes k.mailboxes.list))
  if mb == null then raise_error ErrorCode.object_not_found_err else drop_mailbox i mb

-- What follows the test of the mail, also for NULL. The bytes of the message stay as they are.
clear_mail : Ptr → Ptr → M (Unit {0})
clear_mail p m = do
  _ ← load_mail m
  store_mail m (some (record { ptr = null; size = 0; source = 0 }))
  set_retval p 1

unfoldable pub kernel_mailbox_destroy_mail : M (Unit {0})
unfolding clear_mail
kernel_mailbox_destroy_mail = do
  p ← current
  me ← load_pd p
  let m = me.request_args.arg0
  if m == null then (raise_error ErrorCode.object_not_found_err >> set_retval p 0) else done
  clear_mail p m

unfoldable pub kernel_mailbox_check : M (Unit {0})
unfolding find_mailbox_by_id
kernel_mailbox_check = do
  p ← current
  me ← load_pd p
  mb ← find_mailbox_by_id me.request_args.arg0
  if mb == null
      then (raise_error ErrorCode.object_not_found_err >> set_retval p 0)
      else (load_mailbox mb >>= λ m. set_retval p m.mails.count)
