-- ===== src/Main/Terminate.antt =====
-- The pass of the main loop of p2/rtos/kernel/kernel.c in which a task terminates, by
-- `Kernel_Terminate_Task` of task/task.c.
use ez_rtos.Base.{◌≡◌, true, false, none, some, arith, ◌==◌, ==_refl, sub_word, sym, subst}
use ez_rtos.PtrList.{PtrList, nodes, holds, ptrlist_find, ptrlist_remove, ptrlist_cnext}
use ez_rtos.PtrList.Cycle.{AreNodes}
use ez_rtos.PtrList.Gone.{ptrlist_cnext-ptrlist_remove}
use ez_rtos.Kernel.Types.{ProcessState, KernelRequest, Pd}
use ez_rtos.Kernel.State.{Kernel}
use ez_rtos.Kernel.Run.{set_cell, ok, fault}
use ez_rtos.Task.{kernel_terminate_task}
use ez_rtos.Scheduler.Dispatch.Lost.{kernel_dispatch_next_task-lost}
use ez_rtos.Main.{Outside, serve_request, leave_kernel, main_loop_pass}
use ez_rtos.Main.Pass.{entering}

-- The task `me` is dead and `list` holds the others.
abbrev terminated : Kernel → Pd → PtrList → Kernel
terminated k me list = record k {
  kernel_request_cswitch = true;
  tasks =
      record (set_cell k.tasks k.current_process (some (record me { state = ProcessState.dead }))) {
        count = sub_word k.tasks.count 1;
        list = list;
      };
}

kernel_terminate_task-terminated :
    (k : Kernel) (me : Pd) (list : PtrList)
    → k.tasks.cell k.current_process ≡ some me
    → ptrlist_remove k.tasks.list (ptrlist_find k.tasks.list k.current_process) ≡ some (list, true)
    → kernel_terminate_task k ≡ ok tt (terminated k me list)
unfolding kernel_terminate_task
kernel_terminate_task-terminated k me list caller removed = ground (arith, removed)

lost_after :
    (o : Outside) (k : Kernel) (me : Pd) (list : PtrList)
    → k.tasks.cell k.current_process ≡ some me
    → k.tick_count ≡ 0
    → me.request ≡ KernelRequest.task_terminate
    → ptrlist_remove k.tasks.list (ptrlist_find k.tasks.list k.current_process) ≡ some (list, true)
    → ptrlist_cnext list k.last_dispatched ≡ none
    → main_loop_pass o k ≡ fault
unfolding main_loop_pass serve_request leave_kernel
lost_after o k me list caller ticks asks removed lost =
    let k' = entering k me in
    let me' : Pd = record me { sp = k.current_sp } in
    let served =
      kernel_terminate_task-terminated k' me' list (ground (arith, ==_refl k.current_process))
        removed in
    let dead : Pd = record me' {
      state = ProcessState.dead;
      request = KernelRequest.none_request;
    } in
    let k'' = terminated k' me' list in
    let after = record k'' { tasks = set_cell k''.tasks k.current_process (some dead) } in
    let stops =
      kernel_dispatch_next_task-lost o.later after dead (ground (arith, ==_refl k.current_process))
        ticks lost in
    ground (arith, asks, served, stops, ==_refl k.current_process)

-- A pass of the main loop that serves the request of a task to terminate itself faults, when the
-- task is not at the head of the process list and no ticks have been counted: its node, which is
-- the one dispatched last, is freed with it, and the search for the next task starts by reading
-- that node. The task is in memory, the nodes are in order, and its node is the one dispatched
-- last.
pub main_loop_pass-kernel_terminate_task :
    (o : Outside) (k : Kernel) (me : Pd)
    → k.tasks.cell k.current_process ≡ some me
    → me.request ≡ KernelRequest.task_terminate
    → k.tick_count ≡ 0
    → AreNodes (nodes k.tasks.list)
    → (k.tasks.list.ptr == k.current_process) ≡ false
    → holds k.tasks.list.next k.current_process ≡ true
    → k.last_dispatched ≡ ptrlist_find k.tasks.list k.current_process
    → main_loop_pass o k ≡ fault
main_loop_pass-kernel_terminate_task o k me caller asks ticks order miss found last =
    let (list, removed, lost) =
      ptrlist_cnext-ptrlist_remove k.tasks.list k.current_process order miss found in
    lost_after o k me list caller ticks asks removed
      (subst (λ c. ptrlist_cnext list c ≡ none) (sym last) lost)
