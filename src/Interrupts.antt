-- ===== src/Interrupts.antt =====
-- The kernel's interrupt handlers and clock (src/kernel/interrupts).
pub mod Clock
pub mod Tables
mod Tests
