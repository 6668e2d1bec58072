-- ===== src/Syscalls.antt =====
-- The dispatch of system calls (src/kernel/syscalls/sys.c). The routines are arguments: `call` runs
-- one on the registers, the continuation and the rest of the kernel (`World`).
pub mod Table
pub mod Dispatch
pub mod Checks
pub mod Heap
pub mod Services
pub mod Exec
pub mod Messages
pub mod Ramdisk
mod Tests
use cthulhu_os.Prelude.{
  ℕ, ◌+◌, ◌-◌, ◌%◌, ◌^◌, Bool, true, false, not, ◌&&◌, List, [], ◌∷◌, ltb, ◌==◌, if◌then◌else◌, u16,
  u64,
}
use cthulhu_os.Process.Switch.{Registers}

-- `syscall_t`; the union of function pointers is one routine.
pub record Syscall (Routine : Type 0) : Type 0 where
  pub present : Bool
  pub uses_error : Bool
  pub unsafe : Bool
  pub args : ℕ
  pub syscall : Routine

-- `continuation_t`
pub record Continuation (Routine : Type 0) : Type 0 where
  pub continuation : Syscall Routine
  pub arg0 : ℕ
  pub arg1 : ℕ
  pub arg2 : ℕ
  pub arg3 : ℕ
  pub arg4 : ℕ
  pub present : Bool

-- What a routine gets behind the registers and the continuation: `&error`, or a register.
pub data Argument : Type 0 where
  error_place : Argument
  value : ℕ → Argument

-- What a routine leaves: `error` is the `int` there, converted to `ruint_t`.
pub record Answer (Routine World : Type 0) : Type 0 where
  pub registers : Registers
  pub continuation : Continuation Routine
  pub world : World
  pub result : ℕ
  pub error : ℕ

-- `SYS_ALLOC_CONT`
abbrev pub sys_alloc_cont : ℕ
sys_alloc_cont = 10

abbrev pub SyscallTable : Type 0 → Type 0
SyscallTable Routine = ℕ → Syscall Routine

-- `make_syscall_0` to `make_syscall_4`; `old_present` is what the variable on the stack held.
unfoldable pub make_syscall :
    {Routine : Type 0} → Bool → ℕ → Routine → Bool → Bool → Syscall Routine
make_syscall old_present args sfnc e unsafe = record {
  present = old_present;
  uses_error = e;
  unsafe = unsafe;
  args = args;
  syscall = sfnc;
}

-- `make_syscall_5` leaves `uses_error` as it was on the stack.
unfoldable pub make_syscall_5 :
    {Routine : Type 0} → Bool → Bool → Routine → Bool → Bool → Syscall Routine
make_syscall_5 old_present old_error sfnc e unsafe = record {
  present = old_present;
  uses_error = old_error;
  unsafe = unsafe;
  args = 5;
  syscall = sfnc;
}

unfoldable pub register_syscall :
    {Routine : Type 0} → Bool → ℕ → Syscall Routine → SyscallTable Routine → SyscallTable Routine
register_syscall system syscall_id s table = if s.uses_error && s.args == 0 then table else λ n.
    if n == syscall_id % u16 then record s { present = true } else table n

-- The arguments by number, without and with `&error`.
unfoldable pub plain_arguments : ℕ → Registers → List Argument
plain_arguments args r =
    if args == 0
    then []
    else if args == 1
    then value r.rdi ∷ []
    else if args == 2
    then value r.rdi ∷ value r.rsi ∷ []
    else if args == 3
    then value r.rdi ∷ value r.rsi ∷ value r.rdx ∷ []
    else if args == 4
    then value r.rdi ∷ value r.rsi ∷ value r.rdx ∷ value r.r8 ∷ []
    else value r.rdi ∷ value r.rsi ∷ value r.rdx ∷ value r.r8 ∷ value r.r9 ∷ []

unfoldable pub error_arguments : ℕ → Registers → List Argument
error_arguments args r =
    error_place
    ∷ (if args == 1
        then []
        else if args == 2
        then value r.rdi ∷ []
        else if args == 3
        then value r.rdi ∷ value r.rsi ∷ []
        else if args == 4
        then value r.rdi ∷ value r.rsi ∷ value r.rdx ∷ []
        else value r.rdi ∷ value r.rsi ∷ value r.rdx ∷ value r.r8 ∷ [])

-- The register that the error goes to.
unfoldable pub set_error : ℕ → ℕ → Registers → Registers
set_error args e r =
    if args == 1
    then record r { rsi = e }
    else if args == 2
    then record r { rdx = e }
    else if args == 5
    then record r { r9 = e }
    else record r { r8 = e }

module _ {Routine World : Type 0}
    (call : Routine
      → List Argument
      → Registers
      → Continuation Routine
      → World
      → Answer Routine World) where
  -- What a system call changes: the registers, the continuation of the thread and the kernel.
  pub record Served : Type 0 where
    pub registers : Registers
    pub continuation : Continuation Routine
    pub world : World

  -- A number of arguments without a case calls nothing.
  unfoldable pub do_sys_handler : Syscall Routine → Served → Served
  unfolding plain_arguments error_arguments set_error
  do_sys_handler sc s =
      let plain =
        call sc.syscall (plain_arguments sc.args s.registers) s.registers s.continuation s.world in
      let with_error =
        call sc.syscall (error_arguments sc.args s.registers) s.registers s.continuation s.world in
      if sc.uses_error
      then (if ltb 0 sc.args && ltb sc.args 6
          then record {
            registers =
                set_error sc.args with_error.error
                  (record with_error.registers { rax = with_error.result });
            continuation = with_error.continuation;
            world = with_error.world;
          }
          else s)
      else (if ltb sc.args 6
          then record {
            registers = record plain.registers { rax = plain.result };
            continuation = plain.continuation;
            world = plain.world;
          }
          else s)

  -- The continuation that `sys_handler` stores in the thread before the call.
  unfoldable pub save_continuation :
      Syscall Routine → Registers → Continuation Routine → Continuation Routine
  save_continuation sc r c = record c {
    continuation = sc;
    arg0 = r.rdi;
    arg1 = r.rsi;
    arg2 = r.r8;
    arg3 = r.r9;
    arg4 = r.r10;
  }

  -- `einval` is the C library's `EINVAL`.
  unfoldable pub sys_handler : ℕ → SyscallTable Routine → Served → Served
  unfolding do_sys_handler save_continuation
  sys_handler einval table s =
      let r = s.registers in
      let sc = table r.rax in
      let saved = record s { continuation = save_continuation sc r s.continuation } in
      if not (ltb r.rax 4096)
      then record s { registers = record r { rdi = u64 - 1 } }
      else if not sc.present
      then record s { registers = record r { rdi = u64 - 1 } }
      else if r.rax == sys_alloc_cont
      then record s { registers = record r { rax = einval } }
      else do_sys_handler sc saved

  -- Where the scheduler resumes a thread whose continuation is present.
  unfoldable pub resume : Served → Served
  unfolding do_sys_handler
  resume s =
      let c = s.continuation in
      let started = record s { continuation = record c { present = false } } in
      if c.present then do_sys_handler c.continuation started else s
