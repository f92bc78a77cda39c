-- ===== src/Lib.antt =====
-- ezRTOS: a preemptive real-time kernel for AVR micro-controllers, with tasks, mutexes, semaphores,
-- events, event groups and mailboxes, all of its optional modules.
--
-- The parts of the program and the files that model them, with paths under p2/rtos/kernel where
-- they do not start with p2:
--
-- - Kernel: the variables of p2/rtos/kernel/kernel.c and of the modules (Kernel/State.antt), the
--   types of kernel_shared.h and kernel_errors.h (Kernel/Types.antt), the objects of the modules
--   (Kernel/Objects.antt), and what C statements do to them (Kernel/Run.antt). A kernel function is
--   a function on the record `Kernel`, with the name of the C function in lower case, and returns a
--   `Run`.
-- - PtrList: others/PtrList.c, the lists of tasks and objects. A list is its static head and the
--   nodes linked behind it, each with its address and the pointer that it holds. PtrList/Walk.antt
--   has the search loops that the modules write over such lists. PtrList/Linked.antt has the same
--   functions on nodes in memory, with the pointers that the code reads and writes, and its child
--   modules relate the two.
-- - Queue: others/Queue.c, the queues of waiting tasks. In Queue.antt, which the kernel modules
--   use, the chain of elements is a list; Queue/Linked.antt has the same functions on elements in
--   memory, with the pointers that the code reads and writes, and its child modules relate the two.
-- - Task: task/task.c, `findProcessByPID` of kernel.c, and the stack of a new task of
--   hardware/cpuarch.c, in the memory of bytes (`bytes` of the kernel). Task/Start.antt has what
--   the bottom half of `Exit_Kernel` of hardware/cswitch.s loads from a stack. The address of the
--   code of `Task_Terminate` is a parameter.
-- - Mutex, Semaphore, Event, EventGroup: mutex/mutex.c, semaphore/semaphore.c, event/event.c and
--   event/event_group.c. Mutex/Safety.antt has a mutex under sequences of requests, as a step
--   relation.
-- - Mailbox: mailbox/mailbox.c. Mailbox.antt has all but sending and receiving, which is
--   Mailbox/Transfer.antt. A mail is an object at an address of its own, and the bytes of a message
--   are in a memory of bytes (`bytes` of the kernel), which sending copies.
-- - Scheduler: the tick interrupt and the tick handler (Scheduler/Tick.antt), the choice of the
--   next task (Scheduler/Select.antt) and the dispatch with its idle loop (Scheduler/Dispatch.antt)
--   of kernel.c.
-- - Main: the main loop, the reset and the start of kernel.c. Main/Print.antt has the functions
--   that print tasks, and Main/Terminate.antt the pass in which a task terminates.
-- - Kmalloc: others/kmalloc.c, an allocator that nothing in the kernel calls. Its headers are in a
--   memory of their own, by address, and its loops run on fuel, of which one round more than there
--   are free pieces is enough.
-- - Os: the calls of p2/rtos/os.c, each up to the point where it enters the kernel, and what it
--   returns.
-- - Examples: a concrete kernel, and the theorems applied to it.
--
-- A task makes a call of Os, which writes a request into its descriptor and enters the kernel; a
-- pass of Main serves the request by a function of Task, Mutex, Semaphore, Event, EventGroup or
-- Mailbox, and lets Scheduler dispatch another task if that function asked for it. The objects are
-- in memory by address, a function from addresses to objects, so that a task is shared by the
-- process list, the queues and `Current_Process`.
--
-- An access through a pointer to no object (NULL, or one that was freed) is the result `fault`.
-- `int`, `unsigned int`, `size_t` and pointers are words of 16 bits, with their wrap-around; an
-- `int` is negative from 32768 on. `malloc` is the C library's: the field `answers` gives the
-- results of its next calls, NULL when it ends, and theorems about calls that allocate say which
-- answers they need. The allocations of a list node and of a queue element are taken even where the
-- code does not check them: a NULL answer is a fault. Memory that the code reads before it sets it
-- is a parameter (`junk`). The ticks that come in while the idle loop waits are a list of numbers,
-- one for each round, and a run that is still in that loop at its end returns `waiting`. The loop
-- of `Kernel_Semaphore_Get_From_Queue` runs on fuel, one more round than there are waiting tasks,
-- which is enough since each round but the last takes one off the queue. The loops of
-- `Kernel_Mailbox_Send_From_Queue` and `Kernel_Mailbox_Recv_From_Queue` call one another through
-- the sending and receiving of each task; each round takes a task off one of the two queues, and
-- the fuel of both is one more than the tasks in both. `Ensures` (Kernel/Ensures.antt) is the form
-- of a statement on what a run leaves unless it faults, which a run out of fuel does not satisfy.
--
-- Not modelled: headers of Kmalloc that overlap with one another or with what is allocated, the top
-- half of the context switch in assembly, which saves the registers, the register writes of the
-- timer and of the serial port, the texts that are printed but for the names of the errors
-- (Kernel/Errors.antt), and the test programs.
pub mod Base
pub mod PtrList
pub mod Queue
pub mod Kernel
pub mod Task
pub mod Mutex
pub mod Semaphore
pub mod Event
pub mod EventGroup
pub mod Mailbox
pub mod Scheduler
pub mod Main
pub mod Kmalloc
pub mod Os
pub mod Examples
