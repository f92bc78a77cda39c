-- ===== src/Main/Unknown.antt =====
-- The requests to destroy an object, of mutex/mutex.c, semaphore/semaphore.c, event/event_group.c and
-- mailbox/mailbox.c, which search in the same way.
use ez_rtos.PtrList.{PtrList, nodes}
use ez_rtos.Kernel.Types.{Pd}
use ez_rtos.Kernel.State.{Kernel}
use ez_rtos.Kernel.Run.{M, fault}
use ez_rtos.Base.{ℕ, ◌≡◌, ◌≢◌, some, ◌==◌, null}
use ez_rtos.PtrList.Cycle.{AreNodes}
use ez_rtos.Kernel.Search.{last_ptr, NonePasses}
use ez_rtos.Mutex.{kernel_destroy_mutex}
use ez_rtos.Semaphore.{kernel_destroy_semaphore}
use ez_rtos.EventGroup.{kernel_destroy_event_group}
use ez_rtos.Mailbox.{kernel_destroy_mailbox}
use ez_rtos.Mutex.Destroy.{kernel_destroy_mutex_unknown}
use ez_rtos.Semaphore.Destroy.{kernel_destroy_semaphore_unknown}
use ez_rtos.EventGroup.Destroy.{kernel_destroy_event_group_unknown}
use ez_rtos.Mailbox.Destroy.{kernel_destroy_mailbox_unknown}

pub data ObjectKind : Type 0 where
  a_mutex : ObjectKind
  a_semaphore : ObjectKind
  an_event_group : ObjectKind
  a_mailbox : ObjectKind

abbrev pub kernel_destroy : ObjectKind → M (Unit {0})
kernel_destroy a_mutex = kernel_destroy_mutex
kernel_destroy a_semaphore = kernel_destroy_semaphore
kernel_destroy an_event_group = kernel_destroy_event_group
kernel_destroy a_mailbox = kernel_destroy_mailbox

-- The list of the objects of a kind.
abbrev pub list_of : ObjectKind → Kernel → PtrList
list_of a_mutex k = k.mutexes.list
list_of a_semaphore k = k.semaphores.list
list_of an_event_group k = k.event_groups.list
list_of a_mailbox k = k.mailboxes.list

-- Its nodes hold objects in memory, none of which has the identifier.
abbrev pub IsUnknown : ObjectKind → Kernel → ℕ → Type 0
IsUnknown a_mutex k id = NonePasses k.mutexes.cell (λ x. x.id == id) (nodes k.mutexes.list)
IsUnknown a_semaphore k id =
    NonePasses k.semaphores.cell (λ x. x.id == id) (nodes k.semaphores.list)
IsUnknown an_event_group k id =
    NonePasses k.event_groups.cell (λ x. x.id == id) (nodes k.event_groups.list)
IsUnknown a_mailbox k id = NonePasses k.mailboxes.cell (λ x. x.id == id) (nodes k.mailboxes.list)

-- A request to destroy a mutex, a semaphore, an event group or a mailbox with an identifier that no
-- object of that kind in its list has faults: the search ends with the last object, which is not
-- NULL, and either an access before faults or ptrlist_remove reads through NULL; the error of an
-- unknown object is not raised. The objects of the list are in memory, and its nodes in order.
pub kernel_destroy_unknown :
    (o : ObjectKind) (k : Kernel) (me : Pd)
    → k.tasks.cell k.current_process ≡ some me
    → IsUnknown o k me.request_args.arg0
    → last_ptr null (nodes (list_of o k)) ≢ null
    → AreNodes (nodes (list_of o k))
    → kernel_destroy o k ≡ fault
kernel_destroy_unknown a_mutex = kernel_destroy_mutex_unknown
kernel_destroy_unknown a_semaphore = kernel_destroy_semaphore_unknown
kernel_destroy_unknown an_event_group = kernel_destroy_event_group_unknown
kernel_destroy_unknown a_mailbox = kernel_destroy_mailbox_unknown
