-- ===== src/Kernel/State.antt =====
-- The variables of p2/rtos/kernel/kernel.c and of the kernel modules, in one record.
use ez_rtos.Base.{ℕ, Bool, Option, List, Ptr}
use ez_rtos.Kernel.Types.{ErrorCode, Pd}
use ez_rtos.Kernel.Objects.{Mutex, Semaphore, Event, EventGroup, Mail, Mailbox, Objects}

pub record Kernel : Type 0 where
  -- `ProcessList`, `Task_Count`, `Last_PID`
  pub tasks : Objects Pd
  pub mutexes : Objects Mutex
  pub semaphores : Objects Semaphore
  pub events : Objects Event
  pub event_groups : Objects EventGroup
  pub mailboxes : Objects Mailbox
  -- the mails, those of the tasks that receive them included
  pub mails : Ptr → Option Mail
  -- the bytes of the messages
  pub bytes : Ptr → ℕ
  pub current_process : Ptr
  pub kernel_active : Bool
  pub kernel_request_cswitch : Bool
  pub err : ErrorCode
  pub tick_count : ℕ
  pub last_dispatched : Ptr
  pub preemptive_cswitch_allowed : Bool
  pub ticks_since_last_cswitch : ℕ
  pub current_sp : Ptr
  -- what the next calls of `malloc` return, NULL when the list ends
  pub answers : List Ptr
