-- ===== src/Examples/Scheduling.antt =====
-- The theorems on the pointer lists, the ticks, the scheduler and the main loop, at concrete kernels.
use ez_rtos.Scheduler.Select.Found.{HasTask}
use ez_rtos.Base.{ℕ, suc, ◌+◌, ◌≡◌, refl, ◌⊎◌, true, false, some, [], ◌∷◌, arith, All, Ptr, null}
use ez_rtos.PtrList.{PtrList, ptrlist_find, ptrlist_remove}
use ez_rtos.PtrList.Change.{contents, contents-ptrlist_remove}
use ez_rtos.Kernel.Types.{ErrorCode, ProcessState, KernelRequest, Pd}
use ez_rtos.Kernel.State.{Kernel}
use ez_rtos.Kernel.Run.{set_cell, ok, fault}
use ez_rtos.Examples.{task, node, machine}
use ez_rtos.Scheduler.Tick.{tick_pd}
use ez_rtos.Scheduler.Tick.Timeout.{
  tick_all, total, tick_all-sleeping, interrupts, counted, interrupts_preempt,
}
use ez_rtos.Scheduler.Select.{kernel_select_next_task}
use ez_rtos.Scheduler.Select.Rounds.{round}
use ez_rtos.Scheduler.Select.Best.{Selects, kernel_select_next_task-Selects}
use ez_rtos.Scheduler.Dispatch.Runs.{ticked, Dispatches, kernel_dispatch_next_task-Selects}
use ez_rtos.Main.{Outside, main_loop_pass}
use ez_rtos.Main.Terminate.{main_loop_pass-kernel_terminate_task}
use ez_rtos.Main.Pass.{entering}

abbrev two : PtrList
two = record { addr = 10; ptr = 100; next = node 20 200 ∷ [] }

contents-ptrlist_remove_example :
    (l' : PtrList) × (ptrlist_remove two (ptrlist_find two 100) ≡ some (l', true))
    × (contents l' ≡ 200 ∷ [])
contents-ptrlist_remove_example =
    contents-ptrlist_remove two 100 (omega arith, refl, (omega arith, refl, tt))
      (omega arith, (omega arith, tt)) refl

-- Task 1 runs, task 2 is ready, and task 3 sleeps for four more ticks; three ticks have been counted.
abbrev runner : Pd
runner = task 1 3 ProcessState.running

abbrev sleeper : ℕ → Pd
sleeper timeout = record (task 3 2 ProcessState.sleeping) { request_timeout = timeout }

abbrev busy : Kernel
busy = record (machine runner (task 2 5 ProcessState.ready) (sleeper 4)) { tick_count = 3 }

tick_all-sleeping_example :
    (tick_all (3 ∷ 2 ∷ []) (sleeper 9) ≡ sleeper 4)
    × (tick_all (3 ∷ 2 ∷ 6 ∷ []) (sleeper 9) ≡ record (sleeper 0) { state = ProcessState.ready })
unfolding total
tick_all-sleeping_example =
    tick_all-sleeping (3 ∷ 2 ∷ []) 6 (sleeper 9) refl (omega arith) (omega arith) (omega arith)
      (omega arith)

interrupts_preempt_example :
    (interrupts 4 busy ≡ ok false (counted busy 7 24))
    × (interrupts (4 + suc 9) busy
        ≡ ok true (record (counted busy 8 25) {
          tasks =
              set_cell busy.tasks 100 (some (record runner { request = KernelRequest.task_yield }));
        }))
interrupts_preempt_example = interrupts_preempt 4 9 busy runner refl (omega arith) refl refl

busy-nodes : All (HasTask busy.tasks.cell) (round [] (node 10 100) (node 20 200 ∷ node 30 300 ∷ []))
busy-nodes = (
  (omega arith, (task 2 5 ProcessState.ready, refl, omega arith)),
  ((omega arith, (sleeper 4, refl, omega arith)), ((omega arith, (runner, refl, omega arith)), tt)),
)

kernel_select_next_task-Selects_example :
    (next : Ptr) × (kernel_select_next_task busy ≡ some next)
    × Selects busy.tasks.cell (round [] (node 10 100) (node 20 200 ∷ node 30 300 ∷ [])) next
kernel_select_next_task-Selects_example =
    kernel_select_next_task-Selects busy [] (node 10 100) (node 20 200 ∷ node 30 300 ∷ []) refl
      (omega arith, refl, (omega arith, refl, (omega arith, refl, tt))) refl refl busy-nodes

kernel_dispatch_next_task-Selects_example :
    (next : Ptr) × Selects
      (ticked busy runner).tasks.cell
      (round [] (node 10 100) (node 20 200 ∷ node 30 300 ∷ []))
      next
    × ((next ≡ null) ⊎ Dispatches [] busy runner next)
unfolding tick_pd
kernel_dispatch_next_task-Selects_example =
    kernel_dispatch_next_task-Selects [] busy runner [] (node 10 100)
      (node 20 200 ∷ node 30 300 ∷ []) refl (omega arith)
      (
        (task 1 3 ProcessState.ready, refl),
        refl,
        ((task 2 5 ProcessState.ready, refl), refl, ((sleeper 4, refl), refl, tt)),
      )
      refl (omega arith, refl, (omega arith, refl, (omega arith, refl, tt))) refl refl
      (
        (omega arith, (_, refl, omega arith)),
        ((omega arith, (_, refl, omega arith)), ((omega arith, (_, refl, omega arith)), tt)),
      )

-- A task that makes a request which is none.
abbrev confused : Kernel
confused =
    machine (record runner { request = KernelRequest.invalid }) (task 2 5 ProcessState.ready)
      (sleeper 4)

abbrev quiet : Outside
quiet = record {
  arriving = [];
  later = [];
  terminate_code = 6000;
  junk_pd = runner;
  junk_count = 0;
}

abbrev answered : Kernel
answered = record (entering confused (record runner { request = KernelRequest.invalid })) {
  err = ErrorCode.invalid_request_err;
}

-- The task of the second node runs, and has asked to terminate.
abbrev leaver : Pd
leaver = record (task 2 5 ProcessState.running) { request = KernelRequest.task_terminate }

abbrev leaving : Kernel
leaving = record (machine (task 1 3 ProcessState.ready) leaver (sleeper 4)) {
  current_process = 200;
  last_dispatched = 20;
}

main_loop_pass-kernel_terminate_task_example : main_loop_pass quiet leaving ≡ fault
unfolding ptrlist_find
main_loop_pass-kernel_terminate_task_example =
    main_loop_pass-kernel_terminate_task quiet leaving leaver refl refl refl
      (omega arith, refl, (omega arith, refl, (omega arith, refl, tt))) refl refl refl
