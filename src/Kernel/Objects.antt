-- ===== src/Kernel/Objects.antt =====
-- The kernel objects: mutex/mutex.h, semaphore/semaphore.h, event/event.h, event/event_group.h, mailbox/mailbox.h
-- (all under p2/rtos/kernel), and what each module keeps of its objects.
use ez_rtos.Base.{ℕ, Option, Ptr}
use ez_rtos.PtrList.{PtrList}
use ez_rtos.Queue.{Queue}

-- `MUTEX_TYPE`.
pub record Mutex : Type 0 where
  pub id : ℕ
  pub owner : ℕ
  pub lock_count : ℕ
  pub highest_priority : ℕ
  pub owner_orig_priority : ℕ
  pub wait_queue : Queue
  pub orig_priority : Queue

-- `SEMAPHORE_TYPE`.
pub record Semaphore : Type 0 where
  pub id : ℕ
  pub count : ℕ
  pub is_binary : ℕ
  pub wait_queue : Queue

-- `EVENT_TYPE`.
pub record Event : Type 0 where
  pub id : ℕ
  pub owner : ℕ
  pub count : ℕ

-- `EVENT_GROUP_TYPE`.
pub record EventGroup : Type 0 where
  pub id : ℕ
  pub events : ℕ

-- `MAIL`: where the message is, its size, and the task that sent it.
pub record Mail : Type 0 where
  pub ptr : Ptr
  pub size : ℕ
  pub source : ℕ

-- `MAILBOX_TYPE`.
pub record Mailbox : Type 0 where
  pub id : ℕ
  pub capacity : ℕ
  pub mails : Queue
  pub send_queue : Queue
  pub recv_queue : Queue

-- The static variables of a module: its list, the number of objects, the last identifier given
-- out; and the memory of its objects, by address.
pub record Objects (A : Type 0) : Type 0 where
  pub list : PtrList
  pub count : ℕ
  pub last_id : ℕ
  pub cell : Ptr → Option A
