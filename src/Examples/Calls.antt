-- ===== src/Examples/Calls.antt =====
-- The theorems on queues, on new tasks and on a whole call, at concrete kernels.
use ez_rtos.Base.{◌≡◌, refl, some, [], ◌∷◌, arith}
use ez_rtos.PtrList.{PtrList}
use ez_rtos.PtrList.Walk.{first_object}
use ez_rtos.PtrList.Change.{contents}
use ez_rtos.Kernel.State.{Kernel}
use ez_rtos.Kernel.Run.{ok, ◌>>=◌, clear_bytes}
use ez_rtos.Kernel.Types.{ProcessState, Pd}
use ez_rtos.Task.{kernel_create_task_direct}
use ez_rtos.Task.Start.{IsStartStack, enter_task-kernel_create_task_direct}
use ez_rtos.Task.Create.{created, registered, framed, kernel_create_task_direct_registers}
use ez_rtos.Main.{Outside, main_loop_pass}
use ez_rtos.Os.{task_suspend}
use ez_rtos.Os.Suspend.{Suspends, task_suspend-Suspends}
use ez_rtos.Examples.{task, machine}

abbrev runner : Pd
runner = task 1 3 ProcessState.running

abbrev machine_1 : Kernel
machine_1 = record (machine runner (task 2 5 ProcessState.sleeping) (task 3 2 ProcessState.ready)) {
  answers = 400 ∷ 80 ∷ 4000 ∷ [];
}

-- The new task gets the identifier 4.
kernel_create_task_direct_registers_example :
    (list : PtrList) × (contents list ≡ 100 ∷ 200 ∷ 300 ∷ 400 ∷ [])
    × (kernel_create_task_direct 6000 runner 9 128 6 0 machine_1
        ≡ ok 4
            (record (registered machine_1 [] list 400
              (record (created runner 4 9 128 6 0 4000) { sp = 4087 })) {
                bytes = framed 6000 9 (clear_bytes 128 4000 machine_1.bytes) 4127;
              }))
kernel_create_task_direct_registers_example =
    kernel_create_task_direct_registers 6000 machine_1 runner 9 128 6 0 400 80 4000 [] (omega arith)
      refl refl (omega arith) (omega arith)

-- The task enters the function at 9, and leaves it to the code at 6000.
enter_task-kernel_create_task_direct_example :
    (k' : Kernel) × (d : Pd) × (kernel_create_task_direct 6000 runner 9 128 6 0 machine_1 ≡ ok 4 k')
    × (k'.tasks.cell 400 ≡ some d)
    × (d.state ≡ ProcessState.ready)
    × IsStartStack 6000 9 4000 128 machine_1.bytes d.sp k'.bytes
enter_task-kernel_create_task_direct_example =
    enter_task-kernel_create_task_direct 6000 machine_1 runner 9 128 6 0 400 80 4000 []
      (omega arith) refl refl (omega arith) (omega arith) (omega arith) (omega arith) (omega arith)
      (omega arith) (omega arith)

abbrev quiet : Outside
quiet = record {
  arriving = [];
  later = [];
  terminate_code = 6000;
  junk_pd = runner;
  junk_count = 0;
}

-- Task 1 suspends task 2.
task_suspend-Suspends_example :
    (k' : Kernel) × ((task_suspend 2 >>= λ _. main_loop_pass quiet) machine_1 ≡ ok tt k')
    × Suspends machine_1 runner 2 200 (task 2 5 ProcessState.sleeping) k'
unfolding first_object
task_suspend-Suspends_example =
    task_suspend-Suspends quiet machine_1 runner 2 200 (task 2 5 ProcessState.sleeping) refl
      (record { in_range = refl; first = refl; ne_null = omega arith; holds_pd = refl })
      (omega arith) refl refl refl
