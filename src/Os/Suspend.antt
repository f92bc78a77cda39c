-- ===== src/Os/Suspend.antt =====
-- The call `Task_Suspend` from its start to the return of the calling task.
use ez_rtos.Os.{entered, task_suspend}
use ez_rtos.Base.{
  ℕ, ◌≡◌, refl, sym, ◌∙◌, ◌≢◌, true, false, some, arith, ◌==◌, if◌then◌else◌, ==_refl, ==_ne, Ptr,
}
use ez_rtos.PtrList.{nodes}
use ez_rtos.Kernel.Types.{ErrorCode, KernelRequest, Pd}
use ez_rtos.Kernel.State.{Kernel}
use ez_rtos.Kernel.Run.{◌>>=◌, set_cell, ok}
use ez_rtos.Kernel.Search.{first_object-update}
use ez_rtos.Task.{can_suspend}
use ez_rtos.Task.Suspend.{suspended_pd, writes_pd, FindsTask, kernel_suspend_task_lem}
use ez_rtos.Main.{Outside, serve_request, main_loop_pass}
use ez_rtos.Main.Pass.{entering, main_loop_pass_returns}

-- The caller with its request, and with its stack pointer saved.
abbrev pub asked : Pd → ℕ → Pd
asked me pid = record me {
  request = KernelRequest.task_suspend;
  request_args = record (me.request_args) { arg0 = pid };
}

abbrev pub saved : Pd → ℕ → Ptr → Pd
saved me pid sp = record (asked me pid) { sp = sp }

-- The caller back from the call.
abbrev pub back : Pd → ℕ → Ptr → Pd
back me pid sp = record (saved me pid sp) { request = KernelRequest.none_request }

-- What the call leaves: the task at `p` is suspended, the caller goes on where it was with its request
-- cleared, and no other task has changed.
pub record Suspends (k : Kernel) (me : Pd) (pid : ℕ) (p : Ptr) (d : Pd) (k' : Kernel) : Type 0 where
  pub goes_on : k'.current_process ≡ k.current_process
  pub same_sp : k'.current_sp ≡ k.current_sp
  pub no_error : k'.err ≡ ErrorCode.no_err
  pub changes :
      (q : Ptr)
      → k'.tasks.cell q ≡ (
          if q == p
          then some (suspended_pd d)
          else if q == k.current_process
          then some (back me pid k.current_sp)
          else k.tasks.cell q)

module _ (o : Outside) (k : Kernel) (me : Pd) (pid : ℕ) (p : Ptr) (d : Pd)
    (caller : k.tasks.cell k.current_process ≡ some me) (f : FindsTask k pid p d)
    (other : p ≢ k.current_process) (fits : can_suspend d.state ≡ true)
    (active : k.kernel_active ≡ true) (quiet : k.kernel_request_cswitch ≡ false) where
  abbrev submitted : Kernel
  submitted = record k { tasks = set_cell k.tasks k.current_process (some (asked me pid)) }

  submits : task_suspend pid k ≡ ok entered submitted
  unfolding task_suspend
  submits = ground arith

  abbrev serving : Kernel
  serving = entering submitted (asked me pid)

  serving-FindsTask : FindsTask serving pid p d
  serving-FindsTask = record {
    in_range = f.in_range;
    first =
        first_object-update submitted.tasks.cell (λ t. t.pid == pid) k.current_process
          (asked me pid) (saved me pid k.current_sp) (nodes k.tasks.list)
          (rw (==_refl k.current_process) refl) refl
        ∙ first_object-update k.tasks.cell (λ t. t.pid == pid) k.current_process me (asked me pid)
            (nodes k.tasks.list) caller refl
        ∙ f.first;
    ne_null = f.ne_null;
    holds_pd = ground (arith, f.holds_pd, ==_ne k.current_process p (λ e. other (sym e)));
  }

  serves :
      serve_request o KernelRequest.task_suspend serving
      ≡ ok tt (writes_pd serving p (suspended_pd d))
  unfolding serve_request
  serves =
      kernel_suspend_task_lem serving (saved me pid k.current_sp) p d
        (rw (==_refl k.current_process) refl) serving-FindsTask
      ∙ rw fits refl

  abbrev left_behind : Kernel
  left_behind = record (writes_pd serving p (suspended_pd d)) {
    current_sp = k.current_sp;
    tasks =
        set_cell (writes_pd serving p (suspended_pd d)).tasks k.current_process
          (some (back me pid k.current_sp));
  }

  returns : main_loop_pass o submitted ≡ ok tt left_behind
  returns =
      main_loop_pass_returns o submitted (writes_pd serving p (suspended_pd d)) (asked me pid)
        (saved me pid k.current_sp) (rw (==_refl k.current_process) refl) serves
        (ground (arith, ==_ne p k.current_process other, ==_refl k.current_process)) quiet

  -- Task_Suspend and the pass of the main loop that it enters together suspend the task that has
  -- the identifier, and return to the caller, which goes on at its own stack pointer, with no error
  -- and its request cleared; no other task changes. The kernel is active with no switch asked for,
  -- the search finds the task, which is not the caller and is ready, running or sleeping.
  pub task_suspend-Suspends :
      (k' : Kernel) × ((task_suspend pid >>= λ _. main_loop_pass o) k ≡ ok tt k')
      × Suspends k me pid p d k'
  task_suspend-Suspends = (
    left_behind,
    rw submits returns,
    record { goes_on = refl; same_sp = refl; no_error = refl; changes = λ q. ground arith },
  )
