-- ===== src/EventGroup/Bits.antt =====
-- Who is woken when bits of an event group are set, and who waits.
use ez_rtos.Base.{
  ℕ, ◌<◌, ◌≡◌, refl, ◌∙◌, subst, ◌≢◌, ◌⊎◌, false, Option, none, List, inl, inr, true, ◌&&◌, some,
  arith, ◌==◌, if◌then◌else◌, Bool-cases, Ptr, null,
}
use ez_rtos.PtrList.{Node, nodes, holds}
use ez_rtos.PtrList.Walk.{first_object}
use ez_rtos.Kernel.Types.{ProcessState, Pd, is_wait_eventg}
use ez_rtos.Kernel.Objects.{EventGroup}
use ez_rtos.Kernel.State.{Kernel}
use ez_rtos.Kernel.Run.{set_cell, ok}
use ez_rtos.Kernel.ForEach.{AreTasks, for_each, mapped, for_each-mapped}
use ez_rtos.EventGroup.{
  bits_ready, woken, kernel_event_group_set_bits, kernel_event_group_wait_bits,
}
use Prim.Native.Nat.{bit_and, bit_or}

-- `eg` is the group that the search for `id` finds.
pub record Finds (k : Kernel) (id : ℕ) (eg : Ptr) (g : EventGroup) : Type 0 where
  pub first :
      first_object k.event_groups.cell (λ x. x.id == id) (nodes k.event_groups.list) ≡ some eg
  pub ne_null : eg ≢ null
  pub holds_group : k.event_groups.cell eg ≡ some g

-- The task waits for the group `id`, and its bits among `events` are enough: one of them is set and
-- it does not wait for all, or all of them are set.
abbrev pub IsAwaited : ℕ → ℕ → Pd → Type 0
IsAwaited id events d =
    (d.state ≡ ProcessState.wait_eventg)
    × (d.request_args.arg0 ≡ id)
    × (((0 < bit_and d.request_args.arg1 events) × (d.request_args.arg2 ≡ 0))
        ⊎ (bit_and d.request_args.arg1 events ≡ d.request_args.arg1))

-- What becomes of the memory at `p` when the bits of the group `id` are now `events`.
pub data SetsReady (cell : Ptr → Option Pd) (ns : List Node) (id events : ℕ) (p : Ptr)
    (after : Option Pd) : Type 0 where
  becomes_ready :
      (d : Pd)
      → holds ns p ≡ true
      → cell p ≡ some d
      → IsAwaited id events d
      → after ≡ some (record d { state = ProcessState.ready })
      → SetsReady cell ns id events p after
  no_task : holds ns p ≡ false → after ≡ cell p → SetsReady cell ns id events p after
  stays :
      ((d : Pd) → cell p ≡ some d → ¬ IsAwaited id events d)
      → after ≡ cell p
      → SetsReady cell ns id events p after

-- The test of the loop, read out.
woken_cases :
    (id events : ℕ) (d : Pd)
    → (IsAwaited id events d × (woken id events d ≡ record d { state = ProcessState.ready }))
      ⊎ ((¬ IsAwaited id events d) × (woken id events d ≡ d))
woken_cases id events d = elim (Bool-cases (is_wait_eventg d.state && d.request_args.arg0 == id)) [
  | inr other ↦ inr (λ a. ground (arith, a), rw other refl)
  | inl waits ↦
      elim (Bool-cases
        (bits_ready (bit_and d.request_args.arg1 events) d.request_args.arg1 d.request_args.arg2)) [
          | inr unset ↦ inr (λ a. ground (arith, a), rw (waits, unset) refl)
          | inl set ↦ inl (ground arith, rw (waits, set) refl)
        ]
]

mapped-SetsReady :
    (cell : Ptr → Option Pd) (ns : List Node) (id events : ℕ) (p : Ptr) (c : Option Pd)
    → cell p ≡ c
    → SetsReady cell ns id events p (mapped (woken id events) ns cell p)
mapped-SetsReady cell ns id events p none e = stays (λ d f. cc) (ground (arith, e))
mapped-SetsReady cell ns id events p (some d) e = elim (Bool-cases (holds ns p)) [
  | inr out ↦ no_task out (rw out refl)
  | inl within ↦ elim (woken_cases id events d) [
    | inl (awaited, w) ↦ becomes_ready d within e awaited (rw (within, e, w) refl)
    | inr (ignored, w) ↦
        stays (λ d' e' a. let same : d' ≡ d = cc in ignored (subst (IsAwaited id events) same a))
          (rw (within, e, w) refl)
  ]
]

module _ (k : Kernel) (me : Pd) (eg : Ptr) (g : EventGroup)
    (here : k.tasks.cell k.current_process ≡ some me) (f : Finds k me.request_args.arg0 eg g) where
  set_bits-for_each :
      kernel_event_group_set_bits k
      ≡ for_each
          (woken g.id (bit_or g.events me.request_args.arg1))
          (nodes k.tasks.list)
          (record k {
            event_groups =
                set_cell k.event_groups eg
                  (some (record g { events = bit_or g.events me.request_args.arg1 }));
          })
  unfolding kernel_event_group_set_bits
  set_bits-for_each = ground arith

  abbrev with_bits : ℕ
  with_bits = bit_or g.events me.request_args.arg1

  -- Kernel_Event_Group_Set_Bits adds the bits of the request to the group, and makes those tasks of
  -- the process list ready that wait for this group and for bits that are now set: one of theirs if
  -- they do not wait for all, or all of theirs. No other task changes, nor does anything else of
  -- the kernel. The group is the one that the search finds, and the nodes of the process list hold
  -- different tasks in memory.
  pub kernel_event_group_set_bits-SetsReady :
      AreTasks k.tasks.cell (nodes k.tasks.list)
      → (cell' : Ptr → Option Pd) × (kernel_event_group_set_bits k
          ≡ ok tt (record k {
            event_groups = set_cell k.event_groups eg (some (record g { events = with_bits }));
            tasks = record (k.tasks) { cell = cell' };
          }))
        × ((p : Ptr) → SetsReady k.tasks.cell (nodes k.tasks.list) g.id with_bits p (cell' p))
  kernel_event_group_set_bits-SetsReady a = (
    _,
    set_bits-for_each ∙ for_each-mapped _ (nodes k.tasks.list) _ a,
    λ p. mapped-SetsReady k.tasks.cell (nodes k.tasks.list) g.id with_bits p (k.tasks.cell p) refl,
  )

  masked : ℕ
  masked = bit_and g.events me.request_args.arg1

  -- Kernel_Event_Group_Wait_Bits, for the group that the search finds, changes nothing when the
  -- bits that the caller waits for are ready by the test that setting bits wakes tasks by; else the
  -- caller waits and asks for a switch.
  pub kernel_event_group_wait_bits_lem : kernel_event_group_wait_bits k ≡ (
      if bits_ready
        (bit_and g.events me.request_args.arg1)
        me.request_args.arg1
        me.request_args.arg2
      then ok tt k
      else ok tt (record k {
        kernel_request_cswitch = true;
        tasks =
            set_cell k.tasks k.current_process
              (some (record me { state = ProcessState.wait_eventg }));
      }))
  unfolding kernel_event_group_wait_bits masked
  kernel_event_group_wait_bits_lem =
      elim (Bool-cases (bits_ready masked me.request_args.arg1 me.request_args.arg2)) [
        | inl set ↦ rw set (ground arith)
        | inr unset ↦ rw unset (ground arith)
      ]
