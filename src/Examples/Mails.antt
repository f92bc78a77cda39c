-- ===== src/Examples/Mails.antt =====
-- The theorems on mailboxes, at concrete kernels.
use ez_rtos.PtrList.Walk.{first_object}
use ez_rtos.Queue.Laws.{IsValid}
use ez_rtos.Queue.{new_ptr_queue}
use ez_rtos.Kernel.Types.{ProcessState, Pd}
use ez_rtos.Kernel.Objects.{Mail, Mailbox}
use ez_rtos.Kernel.State.{Kernel}
use ez_rtos.Kernel.Run.{◌>>=◌, ok, fault, out_of_fuel}
use ez_rtos.Kernel.Ensures.{Ensures}
use ez_rtos.Base.{
  ℕ, ◌+◌, ◌<◌, ◌≡◌, refl, ◌≢◌, inr, Bool, true, false, Option, none, some, List, [], ◌∷◌, arith,
  ◌==◌, if◌then◌else◌, Ptr, null,
}
use ez_rtos.Examples.{task, single, mailbox_1, machine, ptr_queue_of}
use ez_rtos.Mailbox.Transfer.Requests.{Finds, with_retval}
use ez_rtos.Mailbox.Transfer.Requests.Branches.{kernel_mailbox_send_lem, kernel_mailbox_recv_lem}
use ez_rtos.Mailbox.{
  kernel_create_mailbox, kernel_destroy_mailbox, kernel_mailbox_destroy_mail, kernel_mailbox_check,
}
use ez_rtos.Main.{Outside, main_loop_pass}
use ez_rtos.Main.Unknown.{kernel_destroy, kernel_destroy_unknown, a_mailbox}
use ez_rtos.Os.Mailboxes.{mailbox_send}
use ez_rtos.Os.Mailboxes.Posting.{Posts, mailbox_send-Posts}
use ez_rtos.Mailbox.Keeps.{mailbox_requests-AllSound}
use ez_rtos.Mailbox.Sound.{IsSoundBox, AllSound}
use ez_rtos.Mailbox.Transfer.{
  send_from_queue, recv_from_queue, kernel_mailbox_send_internal, kernel_mailbox_recv_internal,
  kernel_mailbox_send, kernel_mailbox_recv,
}
use ez_rtos.Mailbox.Transfer.Deliver.{sent, received, put_to_wait}
use ez_rtos.Mailbox.Transfer.RoundTrip.{mail_roundtrip}
use ez_rtos.Mailbox.Transfer.HandOver.{handed_over, kernel_mailbox_send_internal-receiver}
use ez_rtos.Mailbox.Transfer.Refill.{refilled, kernel_mailbox_recv_internal-sender}
use ez_rtos.Mailbox.Transfer.Ends.Handlers.{FewWait}
use ez_rtos.Mailbox.Transfer.Ends.Fuel.{from_queue-ends}

-- Task 1 asks for box `id`, with a message at `p` of size `n` or a mail at `p`.
abbrev poster : ℕ → Ptr → ℕ → ℕ → Pd
poster id p n blocking = record (task 1 3 ProcessState.running) {
  request_args = record { arg0 = id; arg1 = p; arg2 = n; arg3 = blocking; arg4 = 0 };
}

-- Mails are at 400, empty, and at 410, of task 2.
abbrev mail_2 : Mail
mail_2 = record { ptr = 500; size = 4; source = 2 }

abbrev no_mail : Mail
no_mail = record { ptr = null; size = 0; source = 0 }

abbrev mails_at : Ptr → Option Mail
mails_at q = if q == 400 then some no_mail else if q == 410 then some mail_2 else none

-- Task 2 waits for the box with a message of size 4 at 620, or with a mail at 400.
abbrev waiting_2 : Ptr → Pd
waiting_2 p = record (task 2 5 ProcessState.wait_mailbox) {
  request_args = record { arg0 = 1; arg1 = p; arg2 = 4; arg3 = 1; arg4 = 0 };
}

abbrev posting : Pd → Pd → Mailbox → Kernel
posting me other m = record (machine me other (task 3 2 ProcessState.ready)) {
  mailboxes = single 90 850 m;
  mails = mails_at;
  bytes = λ q. q;
  answers = 901 ∷ 902 ∷ 903 ∷ 904 ∷ [];
}

abbrev one_mail : Mailbox
one_mail = record mailbox_1 { mails = ptr_queue_of (410 ∷ []) }

abbrev small_box : Mailbox
small_box = record one_mail { capacity = 1 }

none_wait : IsValid new_ptr_queue
none_wait = record { counted = refl; small = omega arith }

one_in : (p : Ptr) → IsValid (ptr_queue_of (p ∷ []))
one_in p = record { counted = refl; small = omega arith }

finds : (me other : Pd) (m : Mailbox) → m.id ≡ 1 → Finds (posting me other m) 1 850 m
unfolding first_object
finds me other m e = record {
  named = omega arith;
  first = rw e refl;
  ne_null = omega arith;
  holds = refl;
}

abbrev idle_2 : Pd
idle_2 = task 2 5 ProcessState.ready

kernel_mailbox_send_lem_example :
    kernel_mailbox_send (posting (poster 1 600 3 1) idle_2 small_box)
    ≡ ok tt (
        put_to_wait
          (posting (poster 1 600 3 1) idle_2 small_box)
          850
          (record small_box { send_queue = ptr_queue_of (100 ∷ []) })
          100
          (poster 1 600 3 1)
          (902 ∷ 903 ∷ 904 ∷ []))
kernel_mailbox_send_lem_example =
    kernel_mailbox_send_lem (posting (poster 1 600 3 1) idle_2 small_box) (poster 1 600 3 1) 850
      small_box refl (finds (poster 1 600 3 1) idle_2 small_box refl) 901 902 903 (904 ∷ []) refl
      (omega arith, omega arith, omega arith) (one_in 410) refl none_wait refl refl

holds_410 : (mail : Ptr) (rest : List Ptr) → 410 ∷ [] ≡ mail ∷ rest → mails_at mail ≡ some mail_2
holds_410 mail rest e = let same : 410 ≡ mail = cc in rw (← same) refl

kernel_mailbox_recv_lem_example :
    kernel_mailbox_recv (posting (poster 1 400 0 0) idle_2 one_mail)
    ≡ ok tt (
        with_retval
          (received (posting (poster 1 400 0 0) idle_2 one_mail) 850 one_mail [] 410 mail_2 400)
          100
          (poster 1 400 0 0)
          1)
kernel_mailbox_recv_lem_example =
    kernel_mailbox_recv_lem (posting (poster 1 400 0 0) idle_2 one_mail) (poster 1 400 0 0) 850
      one_mail refl (finds (poster 1 400 0 0) idle_2 one_mail refl) 901 (902 ∷ 903 ∷ 904 ∷ [])
      mail_2 no_mail (one_in 410) holds_410 refl refl (omega arith) none_wait refl refl

mail_roundtrip_example :
    (sent_kernel received_kernel : Kernel) × (kernel_mailbox_send_internal 100 850 600 3 0
        (posting (poster 1 600 3 0) idle_2 mailbox_1)
      ≡ ok 1 sent_kernel)
    × (kernel_mailbox_recv_internal 850 400 0 sent_kernel ≡ ok 1 received_kernel)
    × (received_kernel.mails 400 ≡ some (record { ptr = 902; size = 3; source = 1 }))
    × ((i : ℕ) → i < 3 → received_kernel.bytes (902 + i) ≡ 600 + i)
    × (received_kernel.mailboxes.cell 850 ≡ some mailbox_1)
mail_roundtrip_example =
    mail_roundtrip (posting (poster 1 600 3 0) idle_2 mailbox_1) 100 850 600 400 901 902 903 3 0 0
      (904 ∷ []) mailbox_1 (poster 1 600 3 0) no_mail refl refl
      (record { answered = refl; ne_null = (omega arith, omega arith, omega arith) })
      (record {
        no_mails = refl;
        no_count = refl;
        is_ptr = refl;
        no_senders = refl;
        no_receivers = refl;
      })
      (omega arith) refl (omega arith) (inr (omega arith))

abbrev waited_for : Mailbox
waited_for = record mailbox_1 { recv_queue = ptr_queue_of (200 ∷ []) }

kernel_mailbox_send_internal-receiver_example :
    kernel_mailbox_send_internal 100 850 600 3 0
      (posting (poster 1 600 3 0) (waiting_2 400) waited_for)
    ≡ ok 1 (
        handed_over
          (sent
            (posting (poster 1 600 3 0) (waiting_2 400) waited_for)
            850
            waited_for
            (poster 1 600 3 0)
            901
            600
            3
            902
            (904 ∷ []))
          850
          (record waited_for { mails = ptr_queue_of (901 ∷ []) })
          901
          (record { ptr = 902; size = 3; source = 1 })
          200
          []
          (waiting_2 400))
kernel_mailbox_send_internal-receiver_example =
    kernel_mailbox_send_internal-receiver (posting (poster 1 600 3 0) (waiting_2 400) waited_for)
      100 850 600 901 902 903 200 3 0 (904 ∷ []) [] waited_for (poster 1 600 3 0) (waiting_2 400)
      no_mail refl refl
      (record { answered = refl; ne_null = (omega arith, omega arith, omega arith) }) refl none_wait
      refl (omega arith)
      (record { valid = one_in 200; first = refl; holds = refl; waits_mailbox = refl }) refl refl
      (omega arith)

abbrev pressed : Mailbox
pressed = record small_box { send_queue = ptr_queue_of (200 ∷ []) }

kernel_mailbox_recv_internal-sender_example :
    kernel_mailbox_recv_internal 850 400 0 (posting (poster 1 400 0 0) (waiting_2 620) pressed)
    ≡ ok 1 (
        refilled
          (received
            (posting (poster 1 400 0 0) (waiting_2 620) pressed)
            850
            pressed
            []
            410
            mail_2
            400)
          850
          (record pressed { mails = ptr_queue_of [] })
          901
          902
          200
          []
          (waiting_2 620)
          (904 ∷ []))
kernel_mailbox_recv_internal-sender_example =
    kernel_mailbox_recv_internal-sender (posting (poster 1 400 0 0) (waiting_2 620) pressed) 850 400
      410 901 902 903 200 0 [] [] (904 ∷ []) pressed mail_2 no_mail (waiting_2 620) refl
      (one_in 410) refl refl refl refl refl
      (record { valid = one_in 200; first = refl; holds = refl; waits_mailbox = refl }) refl
      (record { answered = refl; ne_null = (omega arith, omega arith, omega arith) })

-- The box at 850 is the only one.
pressed-IsSoundBox : IsSoundBox pressed
pressed-IsSoundBox = record {
  mails = one_in 410;
  senders = one_in 200;
  receivers = none_wait;
  within = omega arith;
  bounded = omega arith;
}

only_box :
    (P : Mailbox → Type 0) (a m : Mailbox) (p q : Ptr)
    → P a
    → (if p == q then some a else none) ≡ some m
    → P m
only_box P a m p q h = written (p == q)
  where
    written : (b : Bool) → (if b then some a else none) ≡ some m → P m
    written true e = let same : a ≡ m = cc in rw (← same) h
    written false e = absurd cc

abbrev pressing : Kernel
pressing = posting (poster 1 400 0 0) (waiting_2 620) pressed

pressing-AllSound : AllSound pressing
pressing-AllSound p m e = only_box IsSoundBox pressed m 850 p pressed-IsSoundBox e

pressing-FewWait : FewWait pressing
pressing-FewWait p m e =
    only_box (λ x. (x.send_queue.count + 1 < 65535) × (x.recv_queue.count + 1 < 65535)) pressed m
      850 p (omega arith, omega arith) e

from_queue-ends_example :
    (send_from_queue 2 850 pressing ≢ out_of_fuel) × (recv_from_queue 2 850 pressing ≢ out_of_fuel)
from_queue-ends_example =
    from_queue-ends 2 850 pressing pressed pressing-AllSound refl (omega arith)

small_argument : (d : Pd) → some (poster 1 400 0 0) ≡ some d → d.request_args.arg0 < 65535
small_argument d e = let same : poster 1 400 0 0 ≡ d = cc in rw (← same) (omega arith)

mailbox_requests-AllSound_example :
    Ensures (λ _ k'. AllSound k') (kernel_create_mailbox pressing)
    × Ensures (λ _ k'. AllSound k') (kernel_destroy_mailbox pressing)
    × Ensures (λ _ k'. AllSound k') (kernel_mailbox_send pressing)
    × Ensures (λ _ k'. AllSound k') (kernel_mailbox_recv pressing)
    × Ensures (λ _ k'. AllSound k') (kernel_mailbox_destroy_mail pressing)
    × Ensures (λ _ k'. AllSound k') (kernel_mailbox_check pressing)
mailbox_requests-AllSound_example =
    mailbox_requests-AllSound pressing pressing-AllSound pressing-FewWait small_argument

kernel_destroy_unknown_example :
    kernel_destroy a_mailbox (posting (poster 9 0 0 0) idle_2 mailbox_1) ≡ fault
kernel_destroy_unknown_example =
    kernel_destroy_unknown a_mailbox (posting (poster 9 0 0 0) idle_2 mailbox_1) (poster 9 0 0 0)
      refl ((mailbox_1, refl, refl), tt) (omega arith) (omega arith, refl, tt)

abbrev quiet : Outside
quiet = record {
  arriving = [];
  later = [];
  terminate_code = 6000;
  junk_pd = idle_2;
  junk_count = 0;
}

mailbox_send-Posts_example :
    (k' : Kernel) × ((mailbox_send 1 600 3 >>= λ _. main_loop_pass quiet)
        (posting idle_2 idle_2 one_mail)
      ≡ ok tt k')
    × Posts (posting idle_2 idle_2 one_mail) idle_2 1 600 3 850 one_mail 901 902 k'
mailbox_send-Posts_example =
    mailbox_send-Posts quiet (posting idle_2 idle_2 one_mail) idle_2 1 600 3 850 one_mail 901 902
      903 (904 ∷ []) refl (finds idle_2 idle_2 one_mail refl)
      (record { answered = refl; ne_null = (omega arith, omega arith, omega arith) }) (one_in 410)
      refl (omega arith) refl refl refl
