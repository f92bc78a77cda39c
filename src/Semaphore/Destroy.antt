-- ===== src/Semaphore/Destroy.antt =====
-- Destroying a semaphore that does not exist.
use ez_rtos.PtrList.{nodes}
use ez_rtos.Kernel.Types.{Pd}
use ez_rtos.Kernel.State.{Kernel}
use ez_rtos.Kernel.Run.{fault}
use ez_rtos.Base.{◌≡◌, ◌≢◌, some, arith, ◌==◌, null}
use ez_rtos.PtrList.Cycle.{AreNodes}
use ez_rtos.PtrList.Change.{ptrlist_remove-null}
use ez_rtos.Kernel.Search.{last_ptr, NonePasses, stop_at-NonePasses}
use ez_rtos.Semaphore.{kernel_destroy_semaphore}

-- Kernel_Destroy_Semaphore with an identifier that no semaphore of the list has faults: the search
-- ends with the last semaphore, which is not NULL, and ptrlist_remove reads through NULL; the error
-- of an unknown semaphore is not raised. The semaphores of the list are in memory, and its nodes in
-- order.
pub kernel_destroy_semaphore_unknown :
    (k : Kernel) (me : Pd)
    → k.tasks.cell k.current_process ≡ some me
    → NonePasses k.semaphores.cell (λ x. x.id == me.request_args.arg0) (nodes k.semaphores.list)
    → last_ptr null (nodes k.semaphores.list) ≢ null
    → AreNodes (nodes k.semaphores.list)
    → kernel_destroy_semaphore k ≡ fault
unfolding kernel_destroy_semaphore
kernel_destroy_semaphore_unknown k me caller h n a = ground (
  arith,
  stop_at-NonePasses k.semaphores.cell (λ x. x.id == me.request_args.arg0) null
      (nodes k.semaphores.list) h,
  ptrlist_remove-null k.semaphores.list a,
)
