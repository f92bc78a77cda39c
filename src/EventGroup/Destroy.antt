-- ===== src/EventGroup/Destroy.antt =====
-- Destroying an event group that does not exist.
use ez_rtos.PtrList.{nodes}
use ez_rtos.Kernel.Types.{Pd}
use ez_rtos.Kernel.State.{Kernel}
use ez_rtos.Kernel.Run.{fault}
use ez_rtos.Base.{◌≡◌, ◌≢◌, some, arith, ◌==◌, null}
use ez_rtos.PtrList.Cycle.{AreNodes}
use ez_rtos.PtrList.Change.{ptrlist_remove-null}
use ez_rtos.Kernel.Search.{last_ptr, NonePasses, stop_at-NonePasses}
use ez_rtos.EventGroup.{kernel_destroy_event_group}

-- Kernel_Destroy_Event_Group with an identifier that no group of the list has faults: the search
-- ends with the last group, which is not NULL, and ptrlist_remove reads through NULL; the error of
-- an unknown group is not raised. The groups of the list are in memory, and its nodes in order.
pub kernel_destroy_event_group_unknown :
    (k : Kernel) (me : Pd)
    → k.tasks.cell k.current_process ≡ some me
    → NonePasses k.event_groups.cell (λ x. x.id == me.request_args.arg0) (nodes k.event_groups.list)
    → last_ptr null (nodes k.event_groups.list) ≢ null
    → AreNodes (nodes k.event_groups.list)
    → kernel_destroy_event_group k ≡ fault
unfolding kernel_destroy_event_group
kernel_destroy_event_group_unknown k me caller h n a = ground (
  arith,
  stop_at-NonePasses k.event_groups.cell (λ x. x.id == me.request_args.arg0) null
      (nodes k.event_groups.list) h,
  ptrlist_remove-null k.event_groups.list a,
)
