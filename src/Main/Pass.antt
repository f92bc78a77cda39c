-- ===== src/Main/Pass.antt =====
-- What a pass of the main loop does to the task that entered the kernel.
use ez_rtos.Kernel.Types.{ErrorCode, KernelRequest, Pd}
use ez_rtos.Kernel.State.{Kernel}
use ez_rtos.Kernel.Run.{set_cell, ok}
use ez_rtos.Base.{◌≡◌, false, some, arith, ==_refl}
use ez_rtos.Main.{Outside, serve_request, leave_kernel, main_loop_pass}

-- The kernel as a request is served: the stack pointer is saved, and there is no error.
abbrev pub entering : Kernel → Pd → Kernel
entering k me = record k {
  err = ErrorCode.no_err;
  tasks = set_cell k.tasks k.current_process (some (record me { sp = k.current_sp }));
}

-- When the service of a request asks for no switch, a pass of the main loop returns to the task
-- that the service leaves current, with its request cleared and with the stack pointer that its
-- descriptor holds; the service starts with no error and with the stack pointer of the caller
-- saved.
pub main_loop_pass_returns :
    (o : Outside) (k k' : Kernel) (me d : Pd)
    → k.tasks.cell k.current_process ≡ some me
    → serve_request o me.request (entering k me) ≡ ok tt k'
    → k'.tasks.cell k'.current_process ≡ some d
    → k'.kernel_request_cswitch ≡ false
    → main_loop_pass o k
      ≡ ok tt (record k' {
        current_sp = d.sp;
        tasks =
            set_cell k'.tasks k'.current_process
              (some (record d { request = KernelRequest.none_request }));
      })
unfolding main_loop_pass leave_kernel
main_loop_pass_returns o k k' me d caller run holds h = ground (arith, ==_refl k'.current_process)
