-- ===== src/Mailbox/Keeps.antt =====
-- What the requests on mailboxes keep of every box.
use ez_rtos.Mailbox.{
  max_mailbox, new_mailbox, register_mailbox, kernel_create_mailbox_direct, kernel_create_mailbox,
  free_queues, drop_mailbox, kernel_destroy_mailbox, clear_mail, kernel_mailbox_destroy_mail,
  kernel_mailbox_check,
}
use ez_rtos.Mailbox.Sound.{IsSoundBox, AllSound, AllSound-set}
use ez_rtos.Mailbox.Transfer.{kernel_mailbox_send, kernel_mailbox_recv}
use ez_rtos.Mailbox.Transfer.Ends.Handlers.{
  FewWait, find_mailbox_by_id-Ensures, kernel_mailbox_send-AllSound, kernel_mailbox_recv-AllSound,
}
use ez_rtos.PtrList.{PtrList, nodes, is_empty, ptrlist_add, ptrlist_remove}
use ez_rtos.PtrList.Walk.{stop_at}
use ez_rtos.Kernel.State.{Kernel}
use ez_rtos.Kernel.Types.{Pd}
use ez_rtos.Kernel.Run.{
  Run, M, pure, and_then, ◌>>=◌, from_option, set_cell, store_mailbox, set_retval, malloc, list_add,
  update-update, fault,
}
use ez_rtos.Base.{
  ℕ, ◌<◌, ◌≡◌, refl, sym, subst, Bool, true, false, Option, none, some, List, arith, leb, ◌==◌,
  if◌then◌else◌, Ptr, null, add_word,
}
use ez_rtos.Kernel.Objects.{Mailbox}
use ez_rtos.Kernel.Ensures.{
  Ensures, if_Ensures, and_then-Ensures, load-Ensures, from_option-Ensures, malloc-Ensures, returns,
  faults,
}

-- The capacity that the current task's request names, in its first argument, is below the last word.
abbrev pub SmallArgument : Kernel → Type 0
SmallArgument k = (d : Pd) → k.tasks.cell k.current_process ≡ some d → d.request_args.arg0 < 65535

abbrev KeepsAll : {A : Type 0} → Run A → Type 0
KeepsAll r = Ensures (λ _ k. AllSound k) r

new_mailbox-IsSoundBox : (id c : ℕ) → c < 65535 → IsSoundBox (new_mailbox id c)
unfolding new_mailbox
new_mailbox-IsSoundBox id c h = record {
  mails = record { counted = refl; small = omega arith };
  senders = record { counted = refl; small = omega arith };
  receivers = record { counted = refl; small = omega arith };
  within = omega arith;
  bounded = h;
}

-- A box is freed.
AllSound-none :
    (k : Kernel) (mb : Ptr)
    → AllSound k
    → AllSound (record k { mailboxes = set_cell k.mailboxes mb none })
AllSound-none k mb h p m = freed (mb == p)
  where
    freed : (b : Bool) → (if b then none else k.mailboxes.cell p) ≡ some m → IsSoundBox m
    freed true e = absurd cc
    freed false e = h p m e

list_add-Ensures :
    {B : Type 0} {Q : B → Kernel → Type 0} (l : PtrList) (p : Ptr) (k : Kernel) (f : PtrList → M B)
    → ((l' : PtrList) (later : List Ptr) → Ensures Q (f l' (record k { answers = later })))
    → Ensures Q (and_then (list_add l p k) f)
unfolding list_add
list_add-Ensures {Q = Q} l p k f h = by_emptiness (is_empty l)
  where
    added :
        (o : Option PtrList) (later : List Ptr)
        → Ensures (λ l' k'. Ensures Q (f l' k')) (from_option o (record k { answers = later }))
    added none later = faults
    added (some l') later = returns (h l' later)

    by_emptiness :
        (b : Bool)
        → Ensures Q (
            and_then
              ((if b
                  then from_option (ptrlist_add l p null)
                  else (malloc >>= λ e. from_option (ptrlist_add l p e)))
                k)
              f)
    by_emptiness true = and_then-Ensures f (added (ptrlist_add l p null) k.answers) (λ _ _ q. q)
    by_emptiness false =
        and_then-Ensures f (malloc-Ensures k _ λ e later. added (ptrlist_add l p e) later)
          (λ _ _ q. q)

register_mailbox-KeepsAll :
    (mb : Ptr) (l : PtrList) (c : ℕ) (k : Kernel)
    → c < 65535
    → AllSound k
    → KeepsAll (register_mailbox mb l c k)
unfolding register_mailbox
register_mailbox-KeepsAll mb l c k small h =
    let id = add_word k.mailboxes.last_id 1 in
    let k' = record k {
      mailboxes = record (k.mailboxes) {
        list = l;
        count = add_word k.mailboxes.count 1;
        last_id = id;
      };
    } in
    and_then-Ensures (λ _. pure id)
      (if_Ensures (mb == null) (λ _. fault) (store_mailbox mb (some (new_mailbox id c))) k'
        (λ _. faults)
        λ _. returns (AllSound-set k' mb (new_mailbox id c) h (new_mailbox-IsSoundBox id c small)))
      (λ _ _ h'. returns h')

kernel_create_mailbox_direct-KeepsAll :
    (c : ℕ) (k : Kernel) → c < 65535 → AllSound k → KeepsAll (kernel_create_mailbox_direct c k)
unfolding kernel_create_mailbox_direct
kernel_create_mailbox_direct-KeepsAll c k small h =
    if_Ensures (leb max_mailbox k.mailboxes.count) _ _ k (λ _. returns h)
      λ _. malloc-Ensures k _ λ mb later.
        list_add-Ensures k.mailboxes.list mb (record k { answers = later }) _
          λ l last. register_mailbox-KeepsAll mb l c (record k { answers = last }) small h

drop_mailbox-KeepsAll : (i mb : Ptr) (k : Kernel) → AllSound k → KeepsAll (drop_mailbox i mb k)
unfolding drop_mailbox
drop_mailbox-KeepsAll i mb k h = load-Ensures (k.mailboxes.cell mb) k _ λ m e.
    from_option-Ensures (free_queues m) k _ λ m' _.
      from_option-Ensures (ptrlist_remove k.mailboxes.list i) _ _ λ l _. returns (
        subst (λ cell. (p : Ptr) (m'' : Mailbox) → cell p ≡ some m'' → IsSoundBox m'')
          (sym (update-update k.mailboxes.cell mb (some m') none)) (AllSound-none k mb h))

-- Each request.
set_retval-KeepsAll : (p : Ptr) (v : ℕ) (k : Kernel) → AllSound k → KeepsAll (set_retval p v k)
set_retval-KeepsAll p v k h = load-Ensures (k.tasks.cell p) k _ λ d _. returns h

kernel_create_mailbox-KeepsAll :
    (k : Kernel) → SmallArgument k → AllSound k → KeepsAll (kernel_create_mailbox k)
unfolding kernel_create_mailbox
kernel_create_mailbox-KeepsAll k small h = load-Ensures (k.tasks.cell k.current_process) k _ λ me e.
    and_then-Ensures _ (kernel_create_mailbox_direct-KeepsAll me.request_args.arg0 k (small me e) h)
      (set_retval-KeepsAll k.current_process)

kernel_destroy_mailbox-KeepsAll : (k : Kernel) → AllSound k → KeepsAll (kernel_destroy_mailbox k)
unfolding kernel_destroy_mailbox
kernel_destroy_mailbox-KeepsAll k h = load-Ensures (k.tasks.cell k.current_process) k _ λ me _.
    from_option-Ensures
      (stop_at k.mailboxes.cell (λ m. m.id == me.request_args.arg0) null (nodes k.mailboxes.list)) k
      _
      λ (i, mb) _.
        if_Ensures (mb == null) _ _ k (λ _. returns h) λ _. drop_mailbox-KeepsAll i mb k h

clear_mail-KeepsAll : (p m : Ptr) (k : Kernel) → AllSound k → KeepsAll (clear_mail p m k)
unfolding clear_mail
clear_mail-KeepsAll p m k h =
    load-Ensures (k.mails m) k _ λ _ _. load-Ensures (k.tasks.cell p) _ _ λ d _. returns h

kernel_mailbox_destroy_mail-KeepsAll :
    (k : Kernel) → AllSound k → KeepsAll (kernel_mailbox_destroy_mail k)
unfolding kernel_mailbox_destroy_mail
kernel_mailbox_destroy_mail-KeepsAll k h = load-Ensures (k.tasks.cell k.current_process) k _ λ me _.
    let m = me.request_args.arg0 in
    and_then-Ensures (λ _. clear_mail k.current_process m)
      (if_Ensures (m == null) _ _ k
        (λ _. load-Ensures (k.tasks.cell k.current_process) _ _ λ d _. returns h) (λ _. returns h))
      (λ _ k' h'. clear_mail-KeepsAll k.current_process m k' h')

kernel_mailbox_check-KeepsAll :
    (k : Kernel) → AllSound k → FewWait k → KeepsAll (kernel_mailbox_check k)
unfolding kernel_mailbox_check
kernel_mailbox_check-KeepsAll k h few = load-Ensures (k.tasks.cell k.current_process) k _ λ me _.
    and_then-Ensures _ (find_mailbox_by_id-Ensures me.request_args.arg0 k h few) λ mb k' (h', _).
      if_Ensures (mb == null) _ _ k'
        (λ _. load-Ensures (k'.tasks.cell k.current_process) _ _ λ d _. returns h')
        (λ _.
          load-Ensures (k'.mailboxes.cell mb) k' _
            λ m _. set_retval-KeepsAll k.current_process m.mails.count k' h')

-- Every request on mailboxes (create, destroy, send, receive, destroy a mail, check) leaves all
-- boxes sound, if it does not fault, and never runs out of fuel: the counts are those of the
-- queues, and no box has more mails than its capacity. That covers all the waiting tasks that a
-- send or a receive serves in turn. All boxes are sound before, in none of them has the number of
-- waiting tasks reached 65534, and the capacity asked for is below 65535.
pub mailbox_requests-AllSound :
    (k : Kernel)
    → AllSound k
    → FewWait k
    → SmallArgument k
    → Ensures (λ _ k'. AllSound k') (kernel_create_mailbox k)
      × Ensures (λ _ k'. AllSound k') (kernel_destroy_mailbox k)
      × Ensures (λ _ k'. AllSound k') (kernel_mailbox_send k)
      × Ensures (λ _ k'. AllSound k') (kernel_mailbox_recv k)
      × Ensures (λ _ k'. AllSound k') (kernel_mailbox_destroy_mail k)
      × Ensures (λ _ k'. AllSound k') (kernel_mailbox_check k)
mailbox_requests-AllSound k h few small = (
  kernel_create_mailbox-KeepsAll k small h,
  kernel_destroy_mailbox-KeepsAll k h,
  kernel_mailbox_send-AllSound k h few,
  kernel_mailbox_recv-AllSound k h few,
  kernel_mailbox_destroy_mail-KeepsAll k h,
  kernel_mailbox_check-KeepsAll k h few,
)
