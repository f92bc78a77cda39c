-- ===== src/Examples.antt =====
-- A concrete kernel with three tasks, at 100, 200 and 300, and one object of each kind.
pub mod Locks
pub mod Mails
pub mod Heaps
pub mod Idle
pub mod Calls
pub mod Exclusion
pub mod Queues
pub mod Lists
pub mod Signals
pub mod Scheduling
use ez_rtos.Kernel.Types.{
  ErrorCode, ProcessState, KernelRequest, Args, Pd, no_err, dead, none_request,
}
use ez_rtos.Kernel.Objects.{Mutex, Semaphore, Event, EventGroup, Mailbox, Objects}
use ez_rtos.Kernel.State.{Kernel}
use ez_rtos.Base.{
  ℕ, ◌+◌, ◌*◌, true, false, Option, none, some, List, [], ◌∷◌, ◌==◌, if◌then◌else◌, length, Ptr,
}
use ez_rtos.PtrList.{Node}
use ez_rtos.Queue.{Queue, new_int_queue, new_ptr_queue}

abbrev pub no_args : Args
no_args = record { arg0 = 0; arg1 = 0; arg2 = 0; arg3 = 0; arg4 = 0 }

abbrev pub asks : ℕ → ℕ → Args
asks a b = record no_args { arg0 = a; arg1 = b }

abbrev pub task : ℕ → ℕ → ProcessState → Pd
task pid pri state = record {
  pid = pid;
  pri = pri;
  state = state;
  stack_size = 128;
  stack = 1000 * pid;
  sp = 1000 * pid + 87;
  code = 7;
  arg = 0;
  request = KernelRequest.none_request;
  request_args = no_args;
  request_retval = 0;
  request_timeout = 0;
  last_state = ProcessState.dead;
  starvation_ticks = 0;
}

abbrev pub node : Ptr → Ptr → Node
node addr ptr = record { addr = addr; ptr = ptr }

-- A list with one object.
abbrev pub single : {A : Type 0} → Ptr → Ptr → A → Objects A
single addr p a = record {
  list = record { addr = addr; ptr = p; next = [] };
  count = 1;
  last_id = 1;
  cell = λ q. if p == q then some a else none;
}

abbrev pub three_tasks : Pd → Pd → Pd → Ptr → Option Pd
three_tasks a b c p =
    if p == 100 then some a else if p == 200 then some b else if p == 300 then some c else none

abbrev pub mutex_1 : Mutex
mutex_1 = record {
  id = 1;
  owner = 0;
  lock_count = 0;
  highest_priority = 10;
  owner_orig_priority = 0;
  wait_queue = new_ptr_queue;
  orig_priority = new_int_queue;
}

abbrev pub semaphore_1 : Semaphore
semaphore_1 = record { id = 1; count = 2; is_binary = 0; wait_queue = new_ptr_queue }

abbrev pub event_1 : Event
event_1 = record { id = 1; owner = 0; count = 0 }

abbrev pub group_1 : EventGroup
group_1 = record { id = 1; events = 4 }

abbrev pub mailbox_1 : Mailbox
mailbox_1 = record {
  id = 1;
  capacity = 2;
  mails = new_ptr_queue;
  send_queue = new_ptr_queue;
  recv_queue = new_ptr_queue;
}

-- The task at 100 runs.
abbrev pub machine : Pd → Pd → Pd → Kernel
machine a b c = record {
  tasks = record {
    list = record { addr = 10; ptr = 100; next = node 20 200 ∷ node 30 300 ∷ [] };
    count = 3;
    last_id = 3;
    cell = three_tasks a b c;
  };
  mutexes = single 40 500 mutex_1;
  semaphores = single 50 600 semaphore_1;
  events = single 60 700 event_1;
  event_groups = single 70 800 group_1;
  mailboxes = single 90 850 mailbox_1;
  mails = λ q. none;
  bytes = λ q. 0;
  current_process = 100;
  kernel_active = true;
  kernel_request_cswitch = false;
  err = ErrorCode.no_err;
  tick_count = 0;
  last_dispatched = 10;
  preemptive_cswitch_allowed = true;
  ticks_since_last_cswitch = 20;
  current_sp = 950;
  answers = 901 ∷ 902 ∷ [];
}

abbrev pub with_mutex : Kernel → Mutex → Kernel
with_mutex k mut = record k { mutexes = single 40 500 mut }

abbrev pub with_semaphore : Kernel → Semaphore → Kernel
with_semaphore k sem = record k { semaphores = single 50 600 sem }

abbrev pub with_event : Kernel → Event → Kernel
with_event k ev = record k { events = single 60 700 ev }

abbrev pub ptr_queue_of : List Ptr → Queue
ptr_queue_of ps = record new_ptr_queue { elements = ps; count = length ps }

abbrev pub int_queue_of : List ℕ → Queue
int_queue_of ns = record new_int_queue { elements = ns; count = length ns }
