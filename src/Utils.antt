-- ===== src/Utils.antt =====
-- Helpers of the kernel (src/kernel/utils).
pub mod Hex
pub mod Console
mod Tests
