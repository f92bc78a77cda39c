-- ===== src/Os/Mailboxes.antt =====
-- The calls of p2/rtos/os.c on mailboxes. What follows `Enter_Kernel` in most of them is `reply`.
pub mod Posting
use ez_rtos.Kernel.Types.{KernelRequest, Pd}
use ez_rtos.Kernel.Run.{M, pure, ◌>>=◌, ◌>>◌, get}
use ez_rtos.Mailbox.{kernel_create_mailbox_direct}
use ez_rtos.Base.{ℕ, if◌then◌else◌, Ptr}
use ez_rtos.Os.{Outcome, entered, returned, ask, ask_if_active, reply, unless_error}

unfoldable pub mailbox_create : ℕ → M Outcome
unfolding kernel_create_mailbox_direct
mailbox_create capacity = do
  k ← get
  if k.kernel_active
      then (ask (λ d. record d {
        request = KernelRequest.mb_create;
        request_args = record (d.request_args) { arg0 = capacity };
      })
          >> pure entered)
      else (do v ← kernel_create_mailbox_direct capacity; v ← unless_error v; pure (returned v))

unfoldable pub mailbox_create_reply : M ℕ
mailbox_create_reply = reply >>= unless_error

unfoldable pub mailbox_destroy : ℕ → M Outcome
mailbox_destroy mb = ask_if_active (λ d. record d {
  request = KernelRequest.mb_destroy;
  request_args = record (d.request_args) { arg0 = mb };
})

unfoldable pub mailbox_destroy_mail : ℕ → M Outcome
mailbox_destroy_mail received = ask_if_active (λ d. record d {
  request = KernelRequest.mb_destroym;
  request_args = record (d.request_args) { arg0 = received };
})

unfoldable pub mailbox_check : ℕ → M Outcome
mailbox_check mb = ask_if_active (λ d. record d {
  request = KernelRequest.mb_checkmail;
  request_args = record (d.request_args) { arg0 = mb };
})

-- The descriptor of a caller that sends, and of one that receives.
mailbox_send_helper : ℕ → Ptr → ℕ → ℕ → Pd → Pd
mailbox_send_helper mb msg msg_size blocking d = record d {
  request = KernelRequest.mb_sendmail;
  request_args = record (d.request_args) {
    arg0 = mb;
    arg1 = msg;
    arg2 = msg_size;
    arg3 = blocking;
  };
}

mailbox_recv_helper : ℕ → Ptr → ℕ → Pd → Pd
mailbox_recv_helper mb received blocking d = record d {
  request = KernelRequest.mb_recvmail;
  request_args = record (d.request_args) { arg0 = mb; arg1 = received; arg2 = blocking };
}

unfoldable pub mailbox_send : ℕ → Ptr → ℕ → M Outcome
unfolding mailbox_send_helper
mailbox_send mb msg msg_size = ask_if_active (mailbox_send_helper mb msg msg_size 0)

unfoldable pub mailbox_recv : ℕ → Ptr → M Outcome
unfolding mailbox_recv_helper
mailbox_recv mb received = ask_if_active (mailbox_recv_helper mb received 0)

unfoldable pub mailbox_send_blocking : ℕ → Ptr → ℕ → ℕ → M Outcome
unfolding mailbox_send_helper
mailbox_send_blocking mb msg msg_size timeout =
    ask_if_active
      (λ d. mailbox_send_helper mb msg msg_size 1 (record d { request_timeout = timeout }))

unfoldable pub mailbox_recv_blocking : ℕ → Ptr → ℕ → M Outcome
unfolding mailbox_recv_helper
mailbox_recv_blocking mb received timeout =
    ask_if_active (λ d. mailbox_recv_helper mb received 1 (record d { request_timeout = timeout }))
