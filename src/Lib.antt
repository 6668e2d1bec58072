-- ===== src/Lib.antt =====
-- Verification library of Cthulhu OS: models of the kernel's C code with theorems about them.
--
-- The program. Cthulhu OS is a hobby operating system for x86-64. Its kernel (src/kernel) manages
-- physical frames and page tables, the memory map of each process, threads and their scheduling on
-- several processors, loads ELF programs and serves system calls; user programs are daemons.
-- This library follows the C code function by function:
--
-- - Prelude: shared names, Boolean tests and lists over the native numbers, and 64-bit sums and
--   differences with their wrap-around.
-- - Process/MemMap: the memory map of a process, the list `proc->mem_maps` of src/kernel/processes/
--   process.c: `mmap_area`, `request_va_hole`, `find_va_hole`, `proc_alloc_direct`,
--   `free_mmap_area`, `proc_dealloc_direct` and `free_proc_memory`. A `mmap_area_t**` is the position
--   of the link in the list; a write through NULL or a division by zero is a fault. The random
--   generator and `malloc` are the C library's and come in as arguments; `allocate` and `deallocate`
--   of paging are an interface (`Paging`). Process/MemMap/Share has `map_virtual_virtual` and
--   `map_physical_virtual`, with `map_range` as an argument.
-- - Process/Queues: what the scheduler relies on in the C library's `queue_t`, as a record of
--   operations and laws with an implementation by lists.
-- - Process/Scheduler: src/kernel/processes/scheduler.c, which thread runs next and on which
--   processor: `do_get_priority_count`, `get_and_update_queue`, `get_and_update_threads`,
--   `do_enschedule`, `enschedule_best`.
-- - Process/Switch: `copy_registers`, `registers_copy`, `context_switch` and `schedule`, over a store
--   of threads that is indexed by their addresses.
-- - Memory/Frames: the pool of physical frames of src/kernel/memory/paging.c: `get_free_frame`,
--   `free_frame`, `get_frame_info` and `make_pool`, and `malign` of memory/heap.c. A pointer to a
--   stack element is its index in the array of its section.
-- - Memory/Paging: the page tables of the same file: `__get_page`, `allocate_frame`,
--   `deallocate_frame`, `free_page_structure`, `allocate`, `deallocate`, `allocated` and
--   `virtual_to_physical`, over the words of the physical memory. The pool is an interface
--   (`FramePool`), which Memory/Paging/Sections fills with the frame pool. Memory/Paging/Change has
--   `create_pml4`, `allocate_physret`, `mem_change_type` and `check_mem_state`,
--   Memory/Paging/Demand has `allocate_mem`, Memory/Paging/Shared `map_range` and `page_fault`.
-- - Loader/Elf and Loader/Elf/Sections: src/kernel/loader/elf.c: `check_elf_header`,
--   `elf_symbol_value`, `elf_string`, `load_elf_stage_one`, `load_elf_stage_two` and `load_elf_exec`
--   over the memory map of the process; paging is an interface (`Loading`), and the answers of `malloc` and of the random
--   generator are arguments, one for each call.
-- - Interrupts/Clock: src/kernel/interrupts/clock.c: `days_from_civil`, `timer_tick`, and the
--   conversion of the registers in `initialize_clock`.
-- - Utils/Hex: `hextochar` of src/kernel/utils/kstdlib.c.
-- - Rlyeh: the initial ramdisk, src/kernel/rlyeh/rlyeh.c: `load_header`, `init_initramfs`, `get_path`
--   and `delete_entry`. A path is the list of its parts, which the C library's `strtok` gives.
-- - Structures/Acpi: src/kernel/structures/acpi.c: checksums, `find_rsdp`, `find_table_general`,
--   `init_table_acpi` and the loops over the MCFG table, on a memory of bytes. Those loops and the one
--   of `validate_string` need not end, so they run on fuel, and the theorems say when it is enough.
-- - Syscalls: src/kernel/syscalls/sys.c, the table and the dispatch with the routines as arguments;
--   Syscalls/Checks: how syscall_defs.cc looks at the memory of the caller; Syscalls/Heap: its
--   `allocate_memory` and `deallocate_memory`, over the memory map and the page tables.
--   Syscalls/Services has the calls on services and devices, Syscalls/Exec the checks of
--   `create_process_ivfs`, Syscalls/Messages and Syscalls/Ramdisk those on messages and on the initial
--   ramdisk. Both loops over strings of the caller run on fuel.
-- - Process/Daemons: the table of services in src/kernel/processes/daemons.c with its lock.
-- - Process/Futex: `futex_wait` and `futex_wake` of src/kernel/processes/scheduler.c; on processor 0 a
--   wake spins on the locks that it holds.
-- - Cpus/Ipi: src/kernel/cpus/ipi.c, `ipi_received`, and `send_ipi_message` and `send_ipi_nowait` with
--   the interrupt of the receiver as a step relation.
-- - Grx: src/kernel/grx/grx.c and font.c, the local picture, its flushing and the letters.
-- - Utils/Console: src/kernel/utils/textinput.c, the cursor and the text on the screen. In text
--   mode what `flush_buffer` does at NULL is left out.
-- - Process/Creation: the creation of processes in src/kernel/processes/process.c: `create_process_base`
--   in Base, `cp_stage_1` in Stage, the first process in Init. The kernel's blocks are a list of names,
--   which requests are met is an argument; memory of the process comes from Process/MemMap, the
--   program from Loader/Elf, paging is an interface (`Creating`). The area records of a memory map and
--   what `array_push_data` takes are not among the blocks.
-- - Ddm/Pci: src/ddm/pci.c of the device driver manager, the registers of devices, the search for
--   devices and their names; Ddm/Drivers: the list of drivers of src/ddm/drivers.c.
-- - Cpus/Start: src/kernel/cpus/cpu_mgmt.c, the processors that the MADT lists (`initialize_cpus`,
--   `make_cpu`; the loop runs on fuel, and as much as there are subtables is enough) and the messages
--   of `initialize_mp`.
-- - Interrupts/Tables: src/kernel/structures/gdt.c and src/kernel/interrupts/idt.c, the descriptors
--   of the segments and of the task states, the gates, the masks and acknowledgements, as values.
--
-- Loops over a list or an array are recursions on it, and need no fuel. Spinlocks have no state of
-- their own, but for those of Process/Daemons and Syscalls/Heap, which some returns keep, and of Process/Futex: each modelled
-- function runs between the lock and the unlock of the code.
--
-- Not modelled: hardware access, the assembly files, boot order, the
-- disk driver and user programs; and the C library (KCLib),
-- which is another repository.
pub mod Cpus
pub mod Ddm
pub mod Grx
pub mod Interrupts
pub mod Loader
pub mod Memory
pub mod Prelude
pub mod Process
pub mod Rlyeh
pub mod Structures
pub mod Syscalls
pub mod Utils
