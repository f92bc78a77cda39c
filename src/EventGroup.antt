-- ===== src/EventGroup.antt =====
-- p2/rtos/kernel/event/event_group.c: sets of 16 event bits that tasks wait on.
pub mod Destroy
pub mod Bits
use ez_rtos.Base.{
  ℕ, ◌-◌, Bool, ◌&&◌, ◌||◌, none, some, ltb, leb, ◌==◌, if◌then◌else◌, Ptr, null, add_word,
  sub_word,
}
use ez_rtos.PtrList.{PtrList, nodes, empty, ptrlist_remove}
use ez_rtos.PtrList.Walk.{first_object, stop_at}
use ez_rtos.Kernel.Types.{
  ErrorCode, ProcessState, Pd, is_wait_eventg, max_object_err, object_not_found_err, ready,
  wait_eventg,
}
use ez_rtos.Kernel.ForEach.{for_each}
use ez_rtos.Kernel.Run.{
  M, pure, ◌>>=◌, ◌>>◌, done, from_option, get, put, load_pd, load_event_group, store_event_group,
  set_state, set_retval, current, request_cswitch, raise_error, malloc, list_add, reply_if_active,
  ok, fault,
}
use Prim.Native.Nat.{bit_and, bit_or}

abbrev pub max_event_group : ℕ
max_event_group = 8

unfoldable pub event_group_reset : M (Unit {0})
event_group_reset k = ok tt (record k {
  event_groups = record (k.event_groups) {
    list = empty k.event_groups.list.addr;
    count = 0;
    last_id = 0;
  };
})

unfoldable pub find_event_group_by_id : ℕ → M Ptr
find_event_group_by_id eg k =
    from_option (first_object k.event_groups.cell (λ g. g.id == eg) (nodes k.event_groups.list)) k

register_event_group : Ptr → PtrList → M ℕ
register_event_group eg list k =
    let id = add_word k.event_groups.last_id 1 in
    (put (record k {
      event_groups = record (k.event_groups) {
        list = list;
        count = add_word k.event_groups.count 1;
        last_id = id;
      };
    })
        >> (if eg == null
            then (λ _. fault)
            else store_event_group eg (some (record { id = id; events = 0 })))
        >> reply_if_active id
        >> pure id)
      k

unfoldable pub kernel_create_event_group : M ℕ
unfolding register_event_group malloc list_add
kernel_create_event_group = do
  k ← get
  if leb max_event_group k.event_groups.count
      then (raise_error ErrorCode.max_object_err >> reply_if_active 0 >> pure 0)
      else (do eg ← malloc; list ← list_add k.event_groups.list eg; register_event_group eg list)

-- `free(eg); ptrlist_remove(&EventGroupList, i); --Event_Group_Count;`
drop_event_group : Ptr → Ptr → M (Unit {0})
drop_event_group i eg = do
  store_event_group eg none
  k ← get
  (list, _) ← from_option (ptrlist_remove k.event_groups.list i)
  put (record k {
    event_groups = record (k.event_groups) { list = list; count = sub_word k.event_groups.count 1 };
  })

unfoldable pub kernel_destroy_event_group : M (Unit {0})
unfolding drop_event_group
kernel_destroy_event_group = do
  p ← current
  me ← load_pd p
  k ← get
  (i, eg) ← from_option (
      stop_at k.event_groups.cell (λ g. g.id == me.request_args.arg0) null
        (nodes k.event_groups.list))
  if eg == null then raise_error ErrorCode.object_not_found_err else drop_event_group i eg

-- Of the bits `waited` those in `set` are set: some of them, or all if `all` is not 0.
abbrev pub bits_ready : ℕ → ℕ → ℕ → Bool
bits_ready set waited all = (ltb 0 set && all == 0) || set == waited

-- What the loop of `Kernel_Event_Group_Set_Bits` makes of one task.
abbrev pub woken : ℕ → ℕ → Pd → Pd
woken id events d =
    if is_wait_eventg d.state && d.request_args.arg0 == id
    then (if bits_ready (bit_and d.request_args.arg1 events) d.request_args.arg1 d.request_args.arg2
        then record d { state = ProcessState.ready }
        else d)
    else d

set_bits_at : Ptr → ℕ → M (Unit {0})
unfolding for_each
set_bits_at eg bits = do
  g ← load_event_group eg
  store_event_group eg (some (record g { events = bit_or g.events bits }))
  k ← get
  for_each (woken g.id (bit_or g.events bits)) (nodes k.tasks.list)

unfoldable pub kernel_event_group_set_bits : M (Unit {0})
unfolding find_event_group_by_id set_bits_at
kernel_event_group_set_bits = do
  p ← current
  me ← load_pd p
  eg ← find_event_group_by_id me.request_args.arg0
  if eg == null
      then raise_error ErrorCode.object_not_found_err
      else set_bits_at eg me.request_args.arg1

-- `~bits` is `65535 - bits`.
clear_bits_at : Ptr → ℕ → M (Unit {0})
clear_bits_at eg bits = do
  g ← load_event_group eg
  store_event_group eg (some (record g { events = bit_and g.events (65535 - bits) }))

unfoldable pub kernel_event_group_clear_bits : M (Unit {0})
unfolding find_event_group_by_id clear_bits_at
kernel_event_group_clear_bits = do
  p ← current
  me ← load_pd p
  eg ← find_event_group_by_id me.request_args.arg0
  if eg == null
      then raise_error ErrorCode.object_not_found_err
      else clear_bits_at eg me.request_args.arg1

wait_bits_at : Ptr → Ptr → M (Unit {0})
wait_bits_at p eg = do
  g ← load_event_group eg
  me ← load_pd p
  let current_events = bit_and g.events me.request_args.arg1
  if ltb 0 current_events && me.request_args.arg2 == 0
      then done
      else if current_events == me.request_args.arg1
      then done
      else (set_state p ProcessState.wait_eventg >> request_cswitch)

-- An unknown group raises no error here.
unfoldable pub kernel_event_group_wait_bits : M (Unit {0})
unfolding find_event_group_by_id wait_bits_at
kernel_event_group_wait_bits = do
  p ← current
  me ← load_pd p
  eg ← find_event_group_by_id me.request_args.arg0
  if eg == null then done else wait_bits_at p eg

get_bits_at : Ptr → Ptr → M ℕ
get_bits_at p eg = do g ← load_event_group eg; set_retval p g.events; pure g.events

unfoldable pub kernel_event_group_get_bits : M ℕ
unfolding find_event_group_by_id get_bits_at
kernel_event_group_get_bits = do
  p ← current
  me ← load_pd p
  eg ← find_event_group_by_id me.request_args.arg0
  if eg == null then (raise_error ErrorCode.object_not_found_err >> pure 0) else get_bits_at p eg
