-- ===== src/Scheduler/Dispatch/Lost.antt =====
-- `Kernel_Dispatch_Next_Task` of p2/rtos/kernel/kernel.c, when the node dispatched last is gone.
use ez_rtos.Base.{ℕ, ◌≡◌, none, some, List, arith}
use ez_rtos.PtrList.{ptrlist_cnext}
use ez_rtos.Kernel.Types.{Pd}
use ez_rtos.Kernel.State.{Kernel}
use ez_rtos.Kernel.Run.{fault}
use ez_rtos.Scheduler.Select.{kernel_select_next_task}
use ez_rtos.Scheduler.Tick.{kernel_tick_handler}
use ez_rtos.Scheduler.Dispatch.{select, kernel_dispatch_next_task}
use ez_rtos.Scheduler.Dispatch.Runs.{begin_dispatch-offering}

-- With no ticks, the search that starts at a node which is not in the list faults.
pub kernel_dispatch_next_task-lost :
    (arriving : List ℕ) (k : Kernel) (me : Pd)
    → k.tasks.cell k.current_process ≡ some me
    → k.tick_count ≡ 0
    → ptrlist_cnext k.tasks.list k.last_dispatched ≡ none
    → kernel_dispatch_next_task arriving k ≡ fault
unfolding kernel_dispatch_next_task kernel_tick_handler select kernel_select_next_task
kernel_dispatch_next_task-lost arriving k me caller ticks lost =
    rw (begin_dispatch-offering k me caller) (ground (arith, lost, ticks))
