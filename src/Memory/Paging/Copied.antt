-- ===== src/Memory/Paging/Copied.antt =====
-- A write to a page whose frame has several users (src/kernel/memory/paging.c: `page_fault`).
use cthulhu_os.Memory.Paging.{Memory}
