-- ===== src/Mailbox/Transfer/RoundTrip.antt =====
-- A mail that is sent to an empty box and received from it.
use ez_rtos.Queue.Laws.{IsValid}
use ez_rtos.Mailbox.Transfer.{kernel_mailbox_send_internal, kernel_mailbox_recv_internal}
use ez_rtos.Mailbox.Transfer.Deliver.{
  appended, sent, kernel_mailbox_send_internal-room, received, kernel_mailbox_recv_internal-mail,
}
use ez_rtos.Kernel.State.{Kernel}
use ez_rtos.Kernel.Objects.{Mail, Mailbox}
use ez_rtos.Kernel.Types.{Pd}
use ez_rtos.Kernel.Run.{ok}
use ez_rtos.Kernel.Bytes.{copy_bytes-copied}
use ez_rtos.Base.{
  ℕ, ◌+◌, ◌-◌, ◌≤◌, ◌<◌, ◌≡◌, refl, sym, ap, ◌≢◌, ◌⊎◌, true, false, some, List, [], ◌∷◌, ◌++◌,
  arith, ◌==◌, ==_refl, ==_ne, length, length-append, Ptr, null,
}

-- A box with no mail and no task waiting, of the type that new boxes have.
pub record IsIdle (m : Mailbox) : Type 0 where
  pub no_mails : m.mails.elements ≡ []
  pub no_count : m.mails.count ≡ 0
  pub is_ptr : m.mails.is_ptr_queue ≡ true
  pub no_senders : m.send_queue.count ≡ 0
  pub no_receivers : m.recv_queue.count ≡ 0

-- The three allocations of a message that is sent succeed.
pub record Allocates (k : Kernel) (mail copy qe : Ptr) (later : List Ptr) : Type 0 where
  pub answered : k.answers ≡ mail ∷ copy ∷ qe ∷ later
  pub ne_null : (mail ≢ null) × (copy ≢ null) × (qe ≢ null)

-- Such a box is as it was once the one mail it had has left.
emptied :
    (m : Mailbox)
    → IsIdle m
    → record m { mails = record (m.mails) { elements = []; count = m.mails.count + 1 - 1 } } ≡ m
emptied m idle =
    let elements = idle.no_mails in
    let count : m.mails.count + 1 - 1 ≡ m.mails.count = omega arith in rw (count, ← elements) refl

-- A message that is sent to a box with no mail and no task waiting, and then received from it,
-- arrives: both calls return 1, the receiver's mail has the size, the sender's identifier and the
-- address of a copy, the bytes of the copy are those that the message had, and the box is again as
-- it was. The three allocations succeed, the copy does not overlap the message, and the receiver's
-- mail is in memory and is not the mail allocated.
pub mail_roundtrip :
    (k : Kernel) (sender mb msg dest mail copy qe : Ptr) (size blocking blocking' : ℕ)
    (later : List Ptr) (m : Mailbox) (d : Pd) (old : Mail)
    → k.mailboxes.cell mb ≡ some m
    → k.tasks.cell sender ≡ some d
    → Allocates k mail copy qe later
    → IsIdle m
    → 0 < m.capacity
    → k.mails dest ≡ some old
    → dest ≢ mail
    → (copy + size ≤ msg) ⊎ (msg + size ≤ copy)
    → (sent_kernel received_kernel : Kernel) × (kernel_mailbox_send_internal sender mb msg size
          blocking k
        ≡ ok 1 sent_kernel)
      × (kernel_mailbox_recv_internal mb dest blocking' sent_kernel ≡ ok 1 received_kernel)
      × (received_kernel.mails dest ≡ some (record { ptr = copy; size = size; source = d.pid }))
      × ((i : ℕ) → i < size → received_kernel.bytes (copy + i) ≡ k.bytes (msg + i))
      × (received_kernel.mailboxes.cell mb ≡ some m)
mail_roundtrip k sender mb msg dest mail copy qe size blocking blocking' later m d old e ed a idle
      room there ne apart =
    let full : Mailbox = record m { mails = appended m.mails mail } in
    let content : Mail = record { ptr = copy; size = size; source = d.pid } in
    let sent_kernel = sent k mb m d mail msg size copy later in
    let differ : (mail == dest) ≡ false = ==_ne mail dest (λ same. ne (sym same)) in
    let none_left : length m.mails.elements ≡ 0 = ap length idle.no_mails in
    let valid : IsValid m.mails = record {
      counted = omega (arith, none_left, idle.no_count);
      small = omega (arith, idle.no_count);
    } in
    let valid' : IsValid (appended m.mails mail) = record {
      counted = omega (arith, valid.counted, length-append m.mails.elements (mail ∷ []));
      small = omega (arith, idle.no_count);
    } in
    (
      sent_kernel,
      received sent_kernel mb full [] mail content dest,
      kernel_mailbox_send_internal-room k sender mb msg mail copy qe size blocking later m d e ed
          a.answered a.ne_null valid idle.is_ptr (omega (arith, room, idle.no_count))
          idle.no_receivers,
      kernel_mailbox_recv_internal-mail sent_kernel mb dest mail [] blocking' full content old
          (rw (==_refl mb) refl) valid' (ap (λ l. l ++ (mail ∷ [])) idle.no_mails)
          (rw (==_refl mail) refl) (rw differ there) idle.no_senders,
      rw (differ, ==_refl dest) refl,
      λ i l. copy_bytes-copied size i copy msg k.bytes apart l,
      rw (==_refl mb) (ap some (emptied m idle)),
    )
