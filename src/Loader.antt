-- ===== src/Loader.antt =====
-- The ELF loader (src/kernel/loader).
pub mod Elf
mod Tests
