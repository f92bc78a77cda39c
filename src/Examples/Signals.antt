-- ===== src/Examples/Signals.antt =====
-- The theorems on events, event groups and suspended tasks, at concrete kernels.
use Prim.Native.Nat.{bit_or, bit_and}
use ez_rtos.Base.{ℕ, ◌≡◌, refl, true, some, [], arith, if◌then◌else◌, Ptr, Option}
use ez_rtos.PtrList.{PtrList, nodes}
use ez_rtos.PtrList.Walk.{first_object}
use ez_rtos.PtrList.Change.{contents}
use ez_rtos.Kernel.Types.{ProcessState, Args, Pd}
use ez_rtos.Kernel.Objects.{Event}
use ez_rtos.Kernel.State.{Kernel}
use ez_rtos.Kernel.Run.{◌>>◌, set_cell, ok}
use ez_rtos.Examples.{asks, task, event_1, group_1, machine, with_event}
use ez_rtos.Task.{kernel_suspend_task, kernel_resume_task}
use ez_rtos.Task.Suspend.{writes_pd, kernel_resume_task-kernel_suspend_task}
use ez_rtos.Event.{kernel_wait_event, kernel_signal_event}
use ez_rtos.Event.Signal.{without_event}
use ez_rtos.Event.Once.{
  IsListed, kernel_wait_event_lem, kernel_signal_event_wakes, kernel_wait_event-kernel_signal_event,
}
use ez_rtos.EventGroup.{bits_ready, kernel_event_group_set_bits, kernel_event_group_wait_bits}
use ez_rtos.EventGroup.Bits.{
  kernel_event_group_set_bits-SetsReady, SetsReady, kernel_event_group_wait_bits_lem,
}

abbrev caller : Args → Pd
caller args = record (task 1 3 ProcessState.running) { request_args = args }

abbrev owned : Event
owned = record event_1 { owner = 2 }

-- Task 2 waits for the event.
abbrev signalling : Kernel
signalling =
    with_event
      (machine (caller (asks 1 0)) (task 2 5 ProcessState.wait_event) (task 3 2 ProcessState.ready))
      owned

event-IsListed : IsListed (signalling.events.list) 700
event-IsListed = record {
  in_order = (omega arith, refl, tt);
  no_null = (omega arith, tt);
  listed = refl;
}

kernel_signal_event_wakes_example :
    (list : PtrList) × (contents list ≡ [])
    × (kernel_signal_event signalling
        ≡ ok tt (record (without_event signalling 700 list) {
          kernel_request_cswitch = true;
          tasks = set_cell signalling.tasks 200 (some (task 2 5 ProcessState.ready));
        }))
unfolding first_object
kernel_signal_event_wakes_example =
    kernel_signal_event_wakes signalling (caller (asks 1 0)) 700 owned refl
      (record { ne_zero = omega arith; first = refl; ne_null = omega arith; holds_event = refl })
      event-IsListed 200 (task 2 5 ProcessState.wait_event) (omega arith)
      (record { in_range = refl; first = refl; ne_null = omega arith; holds_pd = refl })

-- Nobody waits for the event.
abbrev keeping : Kernel
keeping = machine (caller (asks 1 0)) (task 2 5 ProcessState.ready) (task 3 2 ProcessState.ready)

kernel_wait_event-kernel_signal_event_example :
    (list : PtrList) × (contents list ≡ [])
    × ((kernel_signal_event >> kernel_wait_event) keeping ≡ ok tt (without_event keeping 700 list))
unfolding first_object
kernel_wait_event-kernel_signal_event_example =
    kernel_wait_event-kernel_signal_event keeping (caller (asks 1 0)) 700 event_1 refl
      (record { ne_zero = omega arith; first = refl; ne_null = omega arith; holds_event = refl })
      event-IsListed refl

kernel_wait_event_lem_example :
    (list : PtrList) × (contents list ≡ [])
    × (kernel_wait_event keeping
        ≡ ok tt (record keeping {
          kernel_request_cswitch = true;
          events = set_cell keeping.events 700 (some (record event_1 { owner = 1 }));
          tasks =
              set_cell keeping.tasks 100
                (some (record (caller (asks 1 0)) { state = ProcessState.wait_event }));
        }))
unfolding first_object
kernel_wait_event_lem_example =
    kernel_wait_event_lem keeping (caller (asks 1 0)) 700 event_1 refl
      (record { ne_zero = omega arith; first = refl; ne_null = omega arith; holds_event = refl })
      event-IsListed

-- Task 2 waits for the bits 1 and 4 of the group, and task 3 for bit 8.
abbrev waiting_for : ℕ → ℕ → ℕ → Pd
waiting_for pid bits all = record (task pid 5 ProcessState.wait_eventg) {
  request_args = record (asks 1 bits) { arg2 = all };
}

abbrev setting : Kernel
setting = machine (caller (asks 1 1)) (waiting_for 2 5 1) (waiting_for 3 8 0)

kernel_event_group_set_bits-SetsReady_example :
    (cell' : Ptr → Option Pd) × (kernel_event_group_set_bits setting
      ≡ ok tt (record setting {
        event_groups =
            set_cell setting.event_groups 800 (some (record group_1 { events = bit_or 4 1 }));
        tasks = record (setting.tasks) { cell = cell' };
      }))
    × ((p : Ptr)
        → SetsReady setting.tasks.cell (nodes setting.tasks.list) 1 (bit_or 4 1) p (cell' p))
unfolding first_object
kernel_event_group_set_bits-SetsReady_example =
    kernel_event_group_set_bits-SetsReady setting (caller (asks 1 1)) 800 group_1 refl
      (record { first = refl; ne_null = omega arith; holds_group = refl })
      (
        (caller (asks 1 1), refl),
        refl,
        ((waiting_for 2 5 1, refl), refl, ((waiting_for 3 8 0, refl), refl, tt)),
      )

kernel_event_group_wait_bits_lem_example : kernel_event_group_wait_bits setting ≡ (
    if bits_ready (bit_and 4 1) 1 0
    then ok tt setting
    else ok tt (record setting {
      kernel_request_cswitch = true;
      tasks =
          set_cell setting.tasks 100
            (some (record (caller (asks 1 1)) { state = ProcessState.wait_eventg }));
    }))
unfolding first_object
kernel_event_group_wait_bits_lem_example =
    kernel_event_group_wait_bits_lem setting (caller (asks 1 1)) 800 group_1 refl
      (record { first = refl; ne_null = omega arith; holds_group = refl })

-- Task 1 suspends task 2, which sleeps.
abbrev suspending : Kernel
suspending =
    machine (caller (asks 2 0)) (task 2 5 ProcessState.sleeping) (task 3 2 ProcessState.ready)

kernel_resume_task-kernel_suspend_task_example :
    (kernel_suspend_task >> kernel_resume_task) suspending
    ≡ ok tt (
        writes_pd suspending 200
          (record (task 2 5 ProcessState.sleeping) { last_state = ProcessState.suspended }))
unfolding first_object
kernel_resume_task-kernel_suspend_task_example =
    kernel_resume_task-kernel_suspend_task suspending (caller (asks 2 0)) 200
      (task 2 5 ProcessState.sleeping) refl (omega arith)
      (record { in_range = refl; first = refl; ne_null = omega arith; holds_pd = refl }) refl
