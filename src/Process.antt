-- ===== src/Process.antt =====
-- Processes: their memory maps and the scheduler of their threads.
pub mod MemMap
pub mod Queues
pub mod Scheduler
pub mod Switch
pub mod Daemons
pub mod Futex
pub mod Creation
mod Tests
