-- ===== src/Syscalls/Table.antt =====
-- The table of system calls (src/kernel/syscalls/sys.c: `initialize_system_calls`) and the numbers
-- that are served.
use cthulhu_os.Prelude.{ℕ, Bool, true, false, List, [], ◌∷◌, leb}
use cthulhu_os.Syscalls.{SyscallTable, make_syscall, register_syscall}

-- The routines of syscall_defs.cc.
pub data Routine : Type 0 where
  allocate_memory allocate_memory_cont deallocate_memory get_pid sys_send_message sys_recv_message
        get_ct_priority :
      Routine
  futex_wait futex_wake get_empty_message dev_fb_get_height dev_fb_get_width get_initramfs_entry
        get_service_status :
      Routine
  register_service create_process_ivfs dev_dm_get_pcie_c dev_dm_get_pcie_info dev_selfmap_physical :
      Routine

-- A call of `initialize_system_calls`: the number, the routine, its arguments and `unsafe`.
pub record Entry : Type 0 where
  pub number : ℕ
  pub routine : Routine
  pub args : ℕ
  pub unsafe : Bool

abbrev pub entry : ℕ → Routine → ℕ → Bool → Entry
entry n f args unsafe = record { number = n; routine = f; args = args; unsafe = unsafe }

unfoldable pub entries : List Entry
entries =
    entry 1 allocate_memory 1 false
    ∷ entry 10 allocate_memory_cont 3 false
    ∷ entry 2 deallocate_memory 2 false
    ∷ entry 4 get_pid 0 false
    ∷ entry 5 sys_send_message 1 true
    ∷ entry 6 sys_recv_message 1 true
    ∷ entry 7 get_ct_priority 0 false
    ∷ entry 8 futex_wait 2 false
    ∷ entry 9 futex_wake 2 false
    ∷ entry 11 get_empty_message 1 false
    ∷ entry 2050 dev_fb_get_height 0 false
    ∷ entry 2049 dev_fb_get_width 0 false
    ∷ entry 2051 get_initramfs_entry 2 true
    ∷ entry 2052 get_service_status 1 true
    ∷ entry 2053 register_service 1 true
    ∷ entry 2054 create_process_ivfs 4 true
    ∷ entry 2055 dev_dm_get_pcie_c 0 false
    ∷ entry 2056 dev_dm_get_pcie_info 1 false
    ∷ entry 2057 dev_selfmap_physical 2 false
    ∷ []

-- The cleared table. Its routines are never called, so any routine stands for the NULL there.
unfoldable pub cleared : SyscallTable Routine
cleared n = record {
  present = false;
  uses_error = false;
  unsafe = false;
  args = 0;
  syscall = get_pid;
}

unfoldable pub register_all : List Entry → SyscallTable Routine → SyscallTable Routine
unfolding register_syscall make_syscall
register_all [] table = table
register_all (e ∷ es) table = register_all es (
    register_syscall (leb 2048 e.number) e.number
      (make_syscall false e.args e.routine false e.unsafe) table)

unfoldable pub initialize_system_calls : SyscallTable Routine
unfolding register_all entries cleared
initialize_system_calls = register_all entries cleared
