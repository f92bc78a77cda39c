-- ===== src/Event/Once.antt =====
-- Events that are signalled, waited for and destroyed (event/event.c).
use ez_rtos.Kernel.Search.{first_object-update}
use ez_rtos.PtrList.{PtrList, nodes, holds, ptrlist_find, ptrlist_remove}
use ez_rtos.Kernel.Types.{ErrorCode, ProcessState, Pd}
use ez_rtos.Kernel.Objects.{Event}
use ez_rtos.Kernel.State.{Kernel}
use ez_rtos.Kernel.Run.{◌>>◌, set_cell, update-update, ok}
use ez_rtos.Base.{
  ◌≡◌, refl, ap, ◌∙◌, ◌≢◌, ◌⊎◌, inl, inr, Bool, true, false, not, ◌&&◌, none, some, arith, ltb,
  ◌==◌, if◌then◌else◌, ==_refl, Bool-cases, Ptr, sub_word,
}
use ez_rtos.PtrList.Cycle.{AreNodes}
use ez_rtos.PtrList.Change.{contents, erase, AreHeld, contents-ptrlist_remove}
use ez_rtos.Task.{find_process_by_pid}
use ez_rtos.Task.Suspend.{FindsTask}
use ez_rtos.Event.{kernel_wait_event, signalled, kernel_signal_event}
use ez_rtos.Event.Signal.{
  Finds, without_event, kernel_wait_event_waits, kernel_wait_event_consumes,
  kernel_wait_event_taken, kernel_signal_event_kept,
}

-- The event is in a list in order.
pub record IsListed (l : PtrList) (e : Ptr) : Type 0 where
  pub in_order : AreNodes (nodes l)
  pub no_null : AreHeld (nodes l)
  pub listed : holds (nodes l) e ≡ true

module _ (k : Kernel) (me : Pd) (e : Ptr) (ev : Event)
    (caller : k.tasks.cell k.current_process ≡ some me) (f : Finds k me.request_args.arg0 e ev)
    (i : IsListed k.events.list e) where
  -- Another task waits for the event.
  abbrev pub taken : Bool
  taken = ltb 0 ev.owner && not (ev.owner == me.pid)

  -- Kernel_Wait_Event raises an error when another task waits for the event. Else it goes on at
  -- once when a signal is kept, and destroys the event, whose address leaves the list of events, or
  -- makes the caller the owner, which waits and asks for a switch. The event is the one that the
  -- search finds, and the list is in order and holds it.
  pub kernel_wait_event_lem :
      (list : PtrList) × (contents list ≡ erase e (contents k.events.list))
      × (kernel_wait_event k ≡ (
          if taken
          then ok tt (record k { err = ErrorCode.object_not_found_err })
          else if ltb 0 ev.count
          then ok tt (without_event k e list)
          else ok tt (record k {
            kernel_request_cswitch = true;
            events = set_cell k.events e (some (record ev { owner = me.pid }));
            tasks =
                set_cell k.tasks k.current_process
                  (some (record me { state = ProcessState.wait_event }));
          })))
  kernel_wait_event_lem =
      let (list, r, c) = contents-ptrlist_remove k.events.list e i.in_order i.no_null i.listed in
      (
        list,
        c,
        elim (Bool-cases taken) [
          | inl busy ↦
              rw busy (kernel_wait_event_taken k me e ev caller f (ground arith) (ground arith))
          | inr vacant ↦ elim (Bool-cases (ltb 0 ev.count)) [
            | inl some_signal ↦
                rw (vacant, some_signal)
                  (kernel_wait_event_consumes k me e ev caller f list (free_or_own vacant)
                    (ground arith) r)
            | inr no_signal ↦
                rw (vacant, no_signal)
                  (kernel_wait_event_waits k me e ev caller f (free_or_own vacant) (ground arith))
          ]
        ],
      )
    where
      free_or_own : taken ≡ false → (ev.owner ≡ 0) ⊎ (ev.owner ≡ me.pid)
      free_or_own vacant = elim (Bool-cases (ev.owner == 0)) [
        | inl zero_owner ↦ inl (ground arith)
        | inr one ↦ inr (ground arith)
      ]

  wakes :
      (p : Ptr) (d : Pd) (list : PtrList)
      → ev.owner ≢ 0
      → FindsTask k ev.owner p d
      → ptrlist_remove k.events.list (ptrlist_find k.events.list e) ≡ some (list, true)
      → kernel_signal_event k
        ≡ ok tt (record (without_event k e list) {
          kernel_request_cswitch = true;
          tasks = set_cell k.tasks p (some (record d { state = ProcessState.ready }));
        })
  unfolding kernel_signal_event find_process_by_pid
  wakes p d list n t r = ground (
    arith,
    t.in_range,
    t.first,
    t.ne_null,
    t.holds_pd,
    ==_refl e,
    update-update k.events.cell e (some (record ev { count = signalled ev.count })) none,
  )

  -- Kernel_Signal_Event, for an event that has an owner, makes that task ready, asks for a switch,
  -- and destroys the event: its address leaves the list of events, which otherwise holds what it
  -- held, in order. The event and the owner are those that the searches find, and the list is in
  -- order and holds the event.
  pub kernel_signal_event_wakes :
      (p : Ptr) (d : Pd)
      → ev.owner ≢ 0
      → FindsTask k ev.owner p d
      → (list : PtrList) × (contents list ≡ erase e (contents k.events.list))
        × (kernel_signal_event k
            ≡ ok tt (record (without_event k e list) {
              kernel_request_cswitch = true;
              tasks = set_cell k.tasks p (some (record d { state = ProcessState.ready }));
            }))
  kernel_signal_event_wakes p d n t =
      let (list, r, c) = contents-ptrlist_remove k.events.list e i.in_order i.no_null i.listed in
      (list, c, wakes p d list n t r)

  abbrev kept : Event
  kept = record ev { count = if ev.count == 0 then 1 else ev.count }

  abbrev after_signal : Kernel
  after_signal = record k { events = set_cell k.events e (some kept) }

  kept-Finds : Finds after_signal me.request_args.arg0 e kept
  kept-Finds = record {
    ne_zero = f.ne_zero;
    first =
        first_object-update k.events.cell (λ x. x.id == me.request_args.arg0) e ev kept
          (nodes k.events.list) f.holds_event refl
        ∙ f.first;
    ne_null = f.ne_null;
    holds_event = rw (==_refl e) refl;
  }

  consumes :
      (list : PtrList)
      → ev.owner ≡ 0
      → ptrlist_remove k.events.list (ptrlist_find k.events.list e) ≡ some (list, true)
      → kernel_wait_event after_signal ≡ ok tt (without_event k e list)
  consumes list o r =
      kernel_wait_event_consumes after_signal me e kept caller kept-Finds list (inl o)
        (ground arith) r
      ∙ ap
          (λ c. ok tt (record k {
            events = record (k.events) { list = list; count = sub_word k.events.count 1; cell = c };
          }))
          (update-update k.events.cell e (some kept) none)

  -- A signal for an event that has no owner is kept: when the same task then waits for the event,
  -- it goes on at once, and the event is destroyed, its address leaving the list of events, which
  -- otherwise holds what it held. The event is the one that the search finds, and the list is in
  -- order and holds it.
  pub kernel_wait_event-kernel_signal_event :
      ev.owner ≡ 0
      → (list : PtrList) × (contents list ≡ erase e (contents k.events.list))
        × ((kernel_signal_event >> kernel_wait_event) k ≡ ok tt (without_event k e list))
  kernel_wait_event-kernel_signal_event o =
      let (list, r, c) = contents-ptrlist_remove k.events.list e i.in_order i.no_null i.listed in
      (list, c, rw (kernel_signal_event_kept k me e ev caller f o) (consumes list o r))
