-- ===== src/Scheduler.antt =====
-- p2/rtos/kernel/kernel.c: the timer ticks and the scheduler, with preemption and starvation
-- prevention enabled.
pub mod Select
pub mod Tick
pub mod Dispatch
