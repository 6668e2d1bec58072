-- ===== src/Structures.antt =====
-- The tables that the firmware and the processor read (src/kernel/structures).
pub mod Acpi
