-- ===== src/Memory.antt =====
-- Memory (src/kernel/memory).
pub mod Frames
pub mod Paging
mod Tests
