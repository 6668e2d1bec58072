-- ===== src/Cpus.antt =====
-- The processors (src/kernel/cpus).
pub mod Ipi
pub mod Start
