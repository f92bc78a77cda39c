-- ===== src/Mutex/Safety/Invariant.antt =====
-- What holds of the mutex in every state that a sequence of requests reaches.
use ez_rtos.Base.{ℕ, ◌≡◌, sym, ap, ◌∙◌, ◌≢◌, Option, some, arith, ◌==◌, if◌then◌else◌, Ptr}
use ez_rtos.Kernel.Types.{Pd}
use ez_rtos.Kernel.Objects.{Mutex}
use ez_rtos.Kernel.State.{Kernel}
use ez_rtos.Mutex.Refine.{view, IsConsistent}
use ez_rtos.Mutex.Release.{pid_in}
use ez_rtos.Mutex.Safety.{AreWaiting, AreUnique, IsElsewhere, IsStart}
use ez_rtos.Mutex.Safety.Counts.{count_in}
use ez_rtos.Mutex.Safety.Line.{AreDistinct}

-- The mutex at `m` is `mut`, and consistent; the tasks in its line wait, each once; and the counts are
-- those of the lock that it implements.
pub record Inv (m : Ptr) (cell : Ptr → Option Pd) (mutexes : Ptr → Option Mutex) (held : Ptr → ℕ)
    (mut : Mutex) : Type 0 where
  pub at : mutexes m ≡ some mut
  pub consistent : IsConsistent mut
  pub line : AreWaiting cell mut.wait_queue.elements
  pub distinct : AreDistinct mut.wait_queue.elements
  pub unique : AreUnique cell
  pub holder : mut.owner ≢ 0 → (q : Ptr) × (pid_in cell q ≡ mut.owner)
  pub counts : (p : Ptr) → held p ≡ count_in (pid_in cell) (view mut) p

pub start-Inv :
    (m : Ptr) (k : Kernel) (s : IsStart m k) → Inv m k.tasks.cell k.mutexes.cell (λ _. 0) s.mut
start-Inv m k s =
    let (none_held, nobody) = s.consistent.free s.free in
    record {
      at = s.at;
      consistent = s.consistent;
      line = rw nobody tt;
      distinct = rw nobody tt;
      unique = s.unique;
      holder = λ n. absurd (n s.free);
      counts = λ p. rw none_held (ground arith);
    }

-- A count does not change with the identifiers of tasks that are new.
count-kept :
    (holder depth a b : ℕ)
    → (holder ≡ 0 → depth ≡ 0)
    → (a ≢ 0 → b ≡ a)
    → (holder ≢ 0 → b ≡ holder → a ≡ holder)
    → (if a == holder then depth else 0) ≡ (if b == holder then depth else 0)
count-kept holder depth a b free kept new = ground arith

pub other-Inv :
    (m : Ptr) (k k' : Kernel) (held : Ptr → ℕ) (mut : Mutex)
    → IsElsewhere m k k'
    → Inv m k.tasks.cell k.mutexes.cell held mut
    → Inv m k'.tasks.cell k'.mutexes.cell held mut
other-Inv m k k' held mut e i = record {
  at = e.object ∙ i.at;
  consistent = i.consistent;
  line = e.line mut i.at i.line;
  distinct = i.distinct;
  unique = e.unique;
  holder = λ n. let (q, h) = i.holder n in (q, e.pids q (λ z. n (sym h ∙ z)) ∙ h);
  counts = λ p.
      i.counts p
      ∙ count-kept mut.owner mut.lock_count (pid_in k.tasks.cell p) (pid_in k'.tasks.cell p)
          (λ z. (i.consistent.free z).0) (e.pids p) (λ n b. old p n b);
}
  where
    old :
        (p : Ptr)
        → mut.owner ≢ 0
        → pid_in k'.tasks.cell p ≡ mut.owner
        → pid_in k.tasks.cell p ≡ mut.owner
    old p n b =
        let (q, h) = i.holder n in
        let now : pid_in k'.tasks.cell q ≡ mut.owner = e.pids q (λ z. n (sym h ∙ z)) ∙ h in
        let same : p ≡ q = e.unique p q (λ z. n (sym b ∙ z)) (b ∙ sym now) in
        ap (pid_in k.tasks.cell) same ∙ h
