-- ===== src/Kernel.antt =====
-- The kernel's shared data and the primitive reads and writes of its memory.
pub mod Types
pub mod Objects
pub mod State
pub mod Errors
pub mod Run
pub mod ForEach
pub mod Search
pub mod Bytes
pub mod Ensures
