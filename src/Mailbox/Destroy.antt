-- ===== src/Mailbox/Destroy.antt =====
-- Destroying a mailbox that does not exist, and a mail.
use ez_rtos.Mailbox.{drop_mailbox, kernel_destroy_mailbox, clear_mail, kernel_mailbox_destroy_mail}
use ez_rtos.PtrList.{nodes}
use ez_rtos.Kernel.Types.{Pd}
use ez_rtos.Kernel.State.{Kernel}
use ez_rtos.Kernel.Run.{update, set_cell, ok, fault}
use ez_rtos.Base.{◌≡◌, ◌≢◌, none, some, arith, ◌==◌, null}
use ez_rtos.PtrList.Cycle.{AreNodes}
use ez_rtos.PtrList.Change.{ptrlist_remove-null}
use ez_rtos.Kernel.Search.{last_ptr, NonePasses, stop_at-NonePasses}

-- Kernel_Destroy_Mailbox with an identifier that no mailbox of the list has faults: the search ends
-- with the last mailbox, which is not NULL, and ptrlist_remove reads through NULL if nothing
-- faulted before; the error of an unknown mailbox is not raised. The mailboxes of the list are in
-- memory, and its nodes in order.
pub kernel_destroy_mailbox_unknown :
    (k : Kernel) (me : Pd)
    → k.tasks.cell k.current_process ≡ some me
    → NonePasses k.mailboxes.cell (λ x. x.id == me.request_args.arg0) (nodes k.mailboxes.list)
    → last_ptr null (nodes k.mailboxes.list) ≢ null
    → AreNodes (nodes k.mailboxes.list)
    → kernel_destroy_mailbox k ≡ fault
unfolding kernel_destroy_mailbox drop_mailbox
kernel_destroy_mailbox_unknown k me caller h n a = ground (
  arith,
  stop_at-NonePasses k.mailboxes.cell (λ x. x.id == me.request_args.arg0) null
      (nodes k.mailboxes.list) h,
  ptrlist_remove-null k.mailboxes.list a,
)

-- Kernel_Mailbox_Destroy_Mail clears the mail that the caller names and returns 1, and faults for
-- every address with no mail, NULL with it: the error and the result 0 that it writes for NULL are
-- followed by the write through it. No mail lies at NULL.
pub kernel_mailbox_destroy_mail_lem :
    (k : Kernel) (me : Pd)
    → k.tasks.cell k.current_process ≡ some me
    → k.mails null ≡ none
    → kernel_mailbox_destroy_mail k ≡ elim (k.mails me.request_args.arg0) [
      | none ↦ fault
      | some _ ↦ ok tt (record k {
        mails =
            update k.mails me.request_args.arg0
              (some (record { ptr = null; size = 0; source = 0 }));
        tasks = set_cell k.tasks k.current_process (some (record me { request_retval = 1 }));
      })
    ]
unfolding kernel_mailbox_destroy_mail clear_mail
kernel_mailbox_destroy_mail_lem k me caller nothing = ground arith
