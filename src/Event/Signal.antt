-- ===== src/Event/Signal.antt =====
-- Signalling an event and waiting for it.
use ez_rtos.Base.{
  ℕ, ◌<◌, ◌≡◌, ◌≢◌, ◌⊎◌, true, none, some, arith, ◌==◌, if◌then◌else◌, Ptr, null, sub_word,
}
use ez_rtos.PtrList.{PtrList, nodes, ptrlist_find, ptrlist_remove}
use ez_rtos.PtrList.Walk.{first_object}
use ez_rtos.Kernel.Types.{ErrorCode, ProcessState, Pd}
use ez_rtos.Kernel.Objects.{Event}
use ez_rtos.Kernel.State.{Kernel}
use ez_rtos.Kernel.Run.{update, set_cell, ok}
use ez_rtos.Event.{kernel_wait_event, kernel_signal_event}

-- `e` is the event that the search for `id` finds.
pub record Finds (k : Kernel) (id : ℕ) (e : Ptr) (ev : Event) : Type 0 where
  pub ne_zero : id ≢ 0
  pub first : first_object k.events.cell (λ x. x.id == id) (nodes k.events.list) ≡ some e
  pub ne_null : e ≢ null
  pub holds_event : k.events.cell e ≡ some ev

-- What is left of the module's variables once the event at `e` is destroyed.
abbrev pub without_event : Kernel → Ptr → PtrList → Kernel
without_event k e list = record k {
  events = record (k.events) {
    list = list;
    count = sub_word k.events.count 1;
    cell = update k.events.cell e none;
  };
}

module _ (k : Kernel) (me : Pd) (e : Ptr) (ev : Event)
    (caller : k.tasks.cell k.current_process ≡ some me)
    (f : Finds k me.request_args.arg0 e ev) where
  -- A task that waits for an event that has not been signalled becomes its owner.
  pub kernel_wait_event_waits :
      ((ev.owner ≡ 0) ⊎ (ev.owner ≡ me.pid))
      → ev.count ≡ 0
      → kernel_wait_event k
        ≡ ok tt (record k {
          kernel_request_cswitch = true;
          events = set_cell k.events e (some (record ev { owner = me.pid }));
          tasks =
              set_cell k.tasks k.current_process
                (some (record me { state = ProcessState.wait_event }));
        })
  unfolding kernel_wait_event
  kernel_wait_event_waits o c = ground arith

  -- A signalled event is used up, and the task goes on.
  pub kernel_wait_event_consumes :
      (list : PtrList)
      → ((ev.owner ≡ 0) ⊎ (ev.owner ≡ me.pid))
      → 0 < ev.count
      → ptrlist_remove k.events.list (ptrlist_find k.events.list e) ≡ some (list, true)
      → kernel_wait_event k ≡ ok tt (without_event k e list)
  unfolding kernel_wait_event
  kernel_wait_event_consumes list o c r = ground arith

  -- One task at most waits for an event.
  pub kernel_wait_event_taken :
      ev.owner ≢ 0
      → ev.owner ≢ me.pid
      → kernel_wait_event k ≡ ok tt (record k { err = ErrorCode.object_not_found_err })
  unfolding kernel_wait_event
  kernel_wait_event_taken n o = ground arith

  -- A signal that nobody waits for is kept, one at most.
  pub kernel_signal_event_kept :
      ev.owner ≡ 0
      → kernel_signal_event k
        ≡ ok tt (record k {
          events =
              set_cell k.events e
                (some (record ev { count = if ev.count == 0 then 1 else ev.count }));
        })
  unfolding kernel_signal_event
  kernel_signal_event_kept o = ground arith
