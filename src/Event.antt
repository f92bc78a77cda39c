-- ===== src/Event.antt =====
-- p2/rtos/kernel/event/event.c: one-shot events with one waiting owner.
pub mod Signal
pub mod Once
use ez_rtos.Base.{
  ℕ, not, ◌&&◌, ◌||◌, none, some, ltb, leb, ◌==◌, if◌then◌else◌, Ptr, null, add_word, sub_word,
}
use ez_rtos.PtrList.{PtrList, nodes, empty, ptrlist_find, ptrlist_remove}
use ez_rtos.PtrList.Walk.{first_object}
use ez_rtos.Kernel.Types.{ErrorCode, ProcessState}
use ez_rtos.Kernel.Objects.{Event}
use ez_rtos.Kernel.Run.{
  M, pure, ◌>>=◌, ◌>>◌, done, from_option, get, put, load_pd, load_event, store_event, set_state,
  current, request_cswitch, raise_error, malloc, list_add, reply_if_active, ok, fault,
}
use ez_rtos.Task.{find_process_by_pid}

abbrev pub max_event : ℕ
max_event = 8

abbrev pub max_event_sig_miss : ℕ
max_event_sig_miss = 1

unfoldable pub event_reset : M (Unit {0})
event_reset k = ok tt (record k {
  events = record (k.events) { list = empty k.events.list.addr; count = 0; last_id = 0 };
})

unfoldable pub find_event_by_event_id : ℕ → M Ptr
find_event_by_event_id e =
    if e == 0 then (raise_error ErrorCode.invalid_arg_err >> pure null) else (do
      k ← get
      found ← from_option (first_object k.events.cell (λ ev. ev.id == e) (nodes k.events.list))
      if found == null
          then (raise_error ErrorCode.object_not_found_err >> pure null)
          else pure found)

-- The code sets no `count`: `junk` is what the allocated memory held.
new_event : ℕ → ℕ → Event
new_event junk id = record { id = id; owner = 0; count = junk }

register_event : ℕ → Ptr → PtrList → M ℕ
unfolding new_event
register_event junk e list k =
    let id = add_word k.events.last_id 1 in
    (put (record k {
      events = record (k.events) { list = list; count = add_word k.events.count 1; last_id = id };
    })
        >> (if e == null then (λ _. fault) else store_event e (some (new_event junk id)))
        >> reply_if_active id
        >> pure id)
      k

unfoldable pub kernel_create_event : ℕ → M ℕ
unfolding register_event malloc list_add
kernel_create_event junk = do
  k ← get
  if leb max_event k.events.count
      then (raise_error ErrorCode.max_object_err >> reply_if_active 0 >> pure 0)
      else (do e ← malloc; list ← list_add k.events.list e; register_event junk e list)

-- The fields are cleared, then the object is freed and its node unlinked.
unfoldable pub kernel_destroy_event_internal : Ptr → M (Unit {0})
kernel_destroy_event_internal e = do
  ev ← load_event e
  store_event e none
  k ← get
  (list, _) ← from_option (ptrlist_remove k.events.list (ptrlist_find k.events.list e))
  put (record k { events = record (k.events) { list = list; count = sub_word k.events.count 1 } })

wait_at : Ptr → Ptr → M (Unit {0})
unfolding kernel_destroy_event_internal
wait_at p e = do
  ev ← load_event e
  me ← load_pd p
  if ltb 0 ev.owner && not (ev.owner == me.pid)
      then raise_error ErrorCode.object_not_found_err
      else if ltb 0 ev.count
      then kernel_destroy_event_internal e
      else (do
        store_event e (some (record ev { owner = me.pid }))
        set_state p ProcessState.wait_event
        request_cswitch)

unfoldable pub kernel_wait_event : M (Unit {0})
unfolding find_event_by_event_id wait_at
kernel_wait_event = do
  p ← current
  me ← load_pd p
  e ← find_event_by_event_id me.request_args.arg0
  if e == null then done else wait_at p e

-- The count of a signalled event. (`MAX_EVENT_SIG_MISS == 0` would count without a limit.)
abbrev pub signalled : ℕ → ℕ
signalled count =
    if max_event_sig_miss == 0 || ltb count max_event_sig_miss then add_word count 1 else count

signal_at : Ptr → M (Unit {0})
unfolding kernel_destroy_event_internal find_process_by_pid
signal_at e = do
  ev ← load_event e
  store_event e (some (record ev { count = signalled ev.count }))
  if ev.owner == 0 then done else (do
    owner ← find_process_by_pid ev.owner
    set_state owner ProcessState.ready
    kernel_destroy_event_internal e
    request_cswitch)

unfoldable pub kernel_signal_event : M (Unit {0})
unfolding find_event_by_event_id signal_at
kernel_signal_event = do
  p ← current
  me ← load_pd p
  e ← find_event_by_event_id me.request_args.arg0
  if e == null then done else signal_at e
