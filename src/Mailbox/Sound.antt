-- ===== src/Mailbox/Sound.antt =====
-- What stays true of every mailbox (p2/rtos/kernel/mailbox/mailbox.c).
use ez_rtos.Queue.{Queue, enqueue_ptr, dequeue_ptr}
use ez_rtos.Kernel.Objects.{Mailbox}
use ez_rtos.Kernel.State.{Kernel}
use ez_rtos.Kernel.Run.{set_cell}
use ez_rtos.Base.{
  ℕ, suc, ◌+◌, ◌≤◌, ◌<◌, ◌≡◌, refl, sym, ap, ◌∙◌, ◌≢◌, Bool, true, false, none, some, List, [], ◌∷◌,
  arith, ◌==◌, if◌then◌else◌, ==_refl, length, length-append, Ptr, null,
}
use ez_rtos.Queue.Laws.{IsValid, enqueue_ptr-ptr, dequeue_ptr-cons, dequeue_ptr-nil}

-- Counts are those of the queues, and a box has room for its mails.
pub record IsSoundBox (m : Mailbox) : Type 0 where
  pub mails : IsValid m.mails
  pub senders : IsValid m.send_queue
  pub receivers : IsValid m.recv_queue
  pub within : m.mails.count ≤ m.capacity
  pub bounded : m.capacity < 65535

-- Every box is sound.
abbrev pub AllSound : Kernel → Type 0
AllSound k = (p : Ptr) (m : Mailbox) → k.mailboxes.cell p ≡ some m → IsSoundBox m

-- Every box is sound, and at most `w` tasks wait for the one at `mb`.
pub record Sound (w : ℕ) (mb : Ptr) (k : Kernel) : Type 0 where
  pub boxes : AllSound k
  pub box : Mailbox
  pub holds_box : k.mailboxes.cell mb ≡ some box
  pub few : box.send_queue.count + box.recv_queue.count ≤ w

pub Sound-same :
    (w : ℕ) (mb : Ptr) (k k' : Kernel)
    → Sound w mb k
    → k'.mailboxes.cell ≡ k.mailboxes.cell
    → Sound w mb k'
Sound-same w mb k k' h e = record {
  boxes = λ p m c. h.boxes p m (ap (λ f. f p) (sym e) ∙ c);
  box = h.box;
  holds_box = ap (λ f. f mb) e ∙ h.holds_box;
  few = h.few;
}

-- One box is written.
pub AllSound-set :
    (k : Kernel) (mb : Ptr) (m : Mailbox)
    → AllSound k
    → IsSoundBox m
    → AllSound (record k { mailboxes = set_cell k.mailboxes mb (some m) })
AllSound-set k mb m h s p m' = written (mb == p)
  where
    written : (b : Bool) → (if b then some m else k.mailboxes.cell p) ≡ some m' → IsSoundBox m'
    written true e = let same : m ≡ m' = cc in rw (← same) s
    written false e = h p m' e

pub Sound-set :
    (w v : ℕ) (mb : Ptr) (k : Kernel) (m : Mailbox)
    → Sound w mb k
    → IsSoundBox m
    → m.send_queue.count + m.recv_queue.count ≤ v
    → Sound v mb (record k { mailboxes = set_cell k.mailboxes mb (some m) })
Sound-set w v mb k m h s few = record {
  boxes = AllSound-set k mb m h.boxes s;
  box = m;
  holds_box = rw (==_refl mb) refl;
  few = few;
}

-- The box that is loaded is the one that is sound.
pub Sound-few :
    (w : ℕ) (mb : Ptr) (k : Kernel) (m : Mailbox)
    → Sound w mb k
    → k.mailboxes.cell mb ≡ some m
    → m.send_queue.count + m.recv_queue.count ≤ w
Sound-few w mb k m h e =
    let same : some h.box ≡ some m = sym h.holds_box ∙ e in
    let box : h.box ≡ m = cc in rw (← box) h.few

-- What the queue functions keep.
pub enqueue_ptr-IsValid :
    (q : Queue) (qe : Ptr) (v : ℕ) (r : Queue × Bool)
    → IsValid q
    → q.count + 1 < 65535
    → enqueue_ptr q qe v ≡ some r
    → IsValid r.0 × (r.0.count ≤ q.count + 1)
unfolding enqueue_ptr
enqueue_ptr-IsValid q qe v r i small e = by_type q.is_ptr_queue refl (qe == null) refl
  where
    refused : q.is_ptr_queue ≡ false → enqueue_ptr q qe v ≡ some (q, false)
    refused f = ground arith

    no_memory : q.is_ptr_queue ≡ true → (qe == null) ≡ true → enqueue_ptr q qe v ≡ none
    no_memory t n = ground arith

    not_null : (qe == null) ≡ false → qe ≢ null
    not_null f n = ground arith

    kept :
        (s : Queue × Bool)
        → some s ≡ some r
        → IsValid s.0 × (s.0.count ≤ q.count + 1)
        → IsValid r.0 × (r.0.count ≤ q.count + 1)
    kept s same h = let equal : s ≡ r = cc in rw (← equal) h

    by_type :
        (b : Bool)
        → q.is_ptr_queue ≡ b
        → (c : Bool) → (qe == null) ≡ c
        → IsValid r.0 × (r.0.count ≤ q.count + 1)
    by_type true t true n = let nothing : none ≡ some r = sym (no_memory t n) ∙ e in absurd cc
    by_type true t false n =
        let more = length-append q.elements (v ∷ []) in
        kept _ (sym (enqueue_ptr-ptr q qe v i t (not_null n)) ∙ e)
          (record { counted = omega (arith, i.counted, more); small = small }, omega arith)
    by_type false f c n = kept (q, false) (sym (refused f) ∙ e) (i, omega arith)

pub dequeue_ptr-IsValid :
    (q : Queue) → IsValid q → IsValid (dequeue_ptr q).1 × ((dequeue_ptr q).1.count ≤ q.count)
dequeue_ptr-IsValid q i = by_elements q.elements refl
  where
    by_elements :
        (l : List ℕ)
        → q.elements ≡ l
        → IsValid (dequeue_ptr q).1 × ((dequeue_ptr q).1.count ≤ q.count)
    by_elements [] e = rw (dequeue_ptr-nil q e) (i, omega arith)
    by_elements (v ∷ vs) e =
        let all : length q.elements ≡ suc (length vs) = rw e refl in
        rw (dequeue_ptr-cons q v vs i e) (
          record { counted = omega (arith, i.counted, all); small = omega (arith, i.small) },
          omega arith,
        )
