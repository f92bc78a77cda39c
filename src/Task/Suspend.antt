-- ===== src/Task/Suspend.antt =====
-- Suspending and resuming a task.
use ez_rtos.Kernel.Search.{first_object-update}
use ez_rtos.PtrList.{nodes}
use ez_rtos.PtrList.Walk.{first_object}
use ez_rtos.Base.{
  ℕ, ◌≡◌, refl, sym, ap, ◌∙◌, ◌≢◌, inl, inr, true, false, ◌||◌, some, arith, ◌==◌, if◌then◌else◌,
  ==_refl, ==_ne, Bool-cases, Ptr, null, is_negative,
}
use ez_rtos.Kernel.Types.{ErrorCode, ProcessState, Pd, is_running, is_suspended}
use ez_rtos.Kernel.State.{Kernel}
use ez_rtos.Kernel.Run.{◌>>◌, set_cell, update-update, ok}
use ez_rtos.Task.{can_suspend, kernel_suspend_task, kernel_resume_task}

abbrev pub suspended_pd : Pd → Pd
suspended_pd d = record d {
  last_state = if is_running d.state then ProcessState.ready else d.state;
  state = ProcessState.suspended;
}

abbrev pub resumed_pd : Pd → Pd
resumed_pd d = record d {
  state = if is_running d.last_state then ProcessState.ready else d.last_state;
  last_state = ProcessState.suspended;
}

abbrev pub writes_pd : Kernel → Ptr → Pd → Kernel
writes_pd k p d = record k { tasks = set_cell k.tasks p (some d) }

-- `p` is the task `d` that the search for `pid` finds.
pub record FindsTask (k : Kernel) (pid : ℕ) (p : Ptr) (d : Pd) : Type 0 where
  pub in_range : (pid == 0 || is_negative pid) ≡ false
  pub first : first_object k.tasks.cell (λ t. t.pid == pid) (nodes k.tasks.list) ≡ some p
  pub ne_null : p ≢ null
  pub holds_pd : k.tasks.cell p ≡ some d

module _ (k : Kernel) (me : Pd) (p : Ptr) (d : Pd) (here : k.tasks.cell k.current_process ≡ some me)
    (f : FindsTask k me.request_args.arg0 p d) where
  -- Only a ready, running or sleeping task is suspended; for any other the request is an error.
  pub kernel_suspend_task_lem : kernel_suspend_task k ≡ (
      if can_suspend d.state
      then ok tt (writes_pd k p (suspended_pd d))
      else ok tt (record k { err = ErrorCode.unprocessable_task_state_err }))
  unfolding kernel_suspend_task
  kernel_suspend_task_lem = elim (Bool-cases (can_suspend d.state)) [
    | inl fits ↦ rw fits (ground arith)
    | inr bad ↦ rw bad (ground arith)
  ]

  pub kernel_resume_task_lem : kernel_resume_task k ≡ (
      if is_suspended d.state
      then ok tt (writes_pd k p (resumed_pd d))
      else ok tt (record k { err = ErrorCode.unprocessable_task_state_err }))
  unfolding kernel_resume_task
  kernel_resume_task_lem = elim (Bool-cases (is_suspended d.state)) [
    | inl fits ↦ rw fits (ground arith)
    | inr bad ↦ rw bad (ground arith)
  ]

pub writes_pd-writes_pd :
    (k : Kernel) (p : Ptr) (a b : Pd) → writes_pd (writes_pd k p a) p b ≡ writes_pd k p b
writes_pd-writes_pd k p a b =
    ap (λ c. record k { tasks = record (k.tasks) { cell = c } })
      (update-update k.tasks.cell p (some a) (some b))

resumed_pd-suspended_pd :
    (d : Pd)
    → resumed_pd (suspended_pd d) ≡ record d {
      state = if is_running d.state then ProcessState.ready else d.state;
      last_state = ProcessState.suspended;
    }
resumed_pd-suspended_pd d = ground arith

-- A task that another one suspends and then resumes is in the state it had, or ready if it had been
-- running; nothing else of the kernel changes but the note of its last state. The task is the one
-- that the search finds, and is ready, running or sleeping.
pub kernel_resume_task-kernel_suspend_task :
    (k : Kernel) (me : Pd) (p : Ptr) (d : Pd)
    → k.tasks.cell k.current_process ≡ some me
    → k.current_process ≢ p
    → FindsTask k me.request_args.arg0 p d
    → can_suspend d.state ≡ true
    → (kernel_suspend_task >> kernel_resume_task) k
      ≡ ok tt (
          writes_pd k p (record d {
            state = if is_running d.state then ProcessState.ready else d.state;
            last_state = ProcessState.suspended;
          }))
kernel_resume_task-kernel_suspend_task k me p d caller other f fits =
    rw (kernel_suspend_task_lem k me p d caller f, fits)
      (kernel_resume_task_lem (writes_pd k p (suspended_pd d)) me p (suspended_pd d)
          (ground (arith, ==_ne p k.current_process (λ e. other (sym e))))
          (record {
            in_range = f.in_range;
            first =
                first_object-update k.tasks.cell (λ t. t.pid == me.request_args.arg0) p d
                  (suspended_pd d) (nodes k.tasks.list) f.holds_pd refl
                ∙ f.first;
            ne_null = f.ne_null;
            holds_pd = rw (==_refl p);
          })
        ∙ ap (ok tt) (
            writes_pd-writes_pd k p (suspended_pd d) (resumed_pd (suspended_pd d))
            ∙ ap (writes_pd k p) (resumed_pd-suspended_pd d)))
