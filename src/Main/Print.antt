-- ===== src/Main/Print.antt =====
-- `print_processes` and `print_process` of kernel.c. A line printed is its numbers; the text that
-- `printf` makes of them is the C library's.
use ez_rtos.Base.{ℕ, ◌≡◌, none, List, [], ◌∷◌, arith, if◌then◌else◌, null}
use ez_rtos.PtrList.{Node, nodes}
use ez_rtos.Kernel.Types.{ProcessState, Pd, is_dead}
use ez_rtos.Kernel.State.{Kernel}
use ez_rtos.Kernel.Run.{M, pure, ◌>>=◌, load_pd, ok, fault}
use ez_rtos.Task.{find_process_by_pid}

pub record Row : Type 0 where
  pub pid : ℕ
  pub state : ProcessState
  pub pri : ℕ
  pub timeout : ℕ

abbrev pub row_of : Pd → Row
row_of d = record { pid = d.pid; state = d.state; pri = d.pri; timeout = d.request_timeout }

print_each : List Node → M (List Row)
print_each [] = pure []
print_each (n ∷ ns) = do
  d ← load_pd n.ptr
  rows ← print_each ns
  pure (if is_dead d.state then rows else row_of d ∷ rows)

unfoldable pub print_processes : M (List Row)
unfolding print_each
print_processes k = print_each (nodes k.tasks.list) k

-- The result of the search is not checked.
unfoldable pub print_process : ℕ → M Row
print_process pid = do p ← find_process_by_pid pid; d ← load_pd p; pure (row_of d)

-- Printing a task that does not exist faults, since no task lies at NULL.
print_process_unknown :
    (pid : ℕ) (k : Kernel)
    → find_process_by_pid pid k ≡ ok null k
    → k.tasks.cell null ≡ none
    → print_process pid k ≡ fault
unfolding print_process
print_process_unknown pid k h z = ground arith
