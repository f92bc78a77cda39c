-- ===== src/Mutex/Destroy.antt =====
-- Destroying a mutex that does not exist.
use ez_rtos.PtrList.{nodes}
use ez_rtos.Kernel.Types.{Pd}
use ez_rtos.Kernel.State.{Kernel}
use ez_rtos.Kernel.Run.{fault}
use ez_rtos.Base.{◌≡◌, ◌≢◌, some, arith, ◌==◌, null}
use ez_rtos.PtrList.Cycle.{AreNodes}
use ez_rtos.PtrList.Change.{ptrlist_remove-null}
use ez_rtos.Kernel.Search.{last_ptr, NonePasses, stop_at-NonePasses}
use ez_rtos.Mutex.{kernel_destroy_mutex}

-- Kernel_Destroy_Mutex with an identifier that no mutex of the list has faults: the search ends
-- with the last mutex, which is not NULL, and ptrlist_remove reads through NULL; the error of an
-- unknown mutex is not raised. The mutexes of the list are in memory, and its nodes in order.
pub kernel_destroy_mutex_unknown :
    (k : Kernel) (me : Pd)
    → k.tasks.cell k.current_process ≡ some me
    → NonePasses k.mutexes.cell (λ x. x.id == me.request_args.arg0) (nodes k.mutexes.list)
    → last_ptr null (nodes k.mutexes.list) ≢ null
    → AreNodes (nodes k.mutexes.list)
    → kernel_destroy_mutex k ≡ fault
unfolding kernel_destroy_mutex
kernel_destroy_mutex_unknown k me caller h n a = ground (
  arith,
  stop_at-NonePasses k.mutexes.cell (λ x. x.id == me.request_args.arg0) null (nodes k.mutexes.list)
      h,
  ptrlist_remove-null k.mutexes.list a,
)
