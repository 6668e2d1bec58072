-- ===== src/Process/Switch.antt =====
-- The switch of a processor from one thread to the next (`copy_registers`, `registers_copy`,
-- `context_switch` and `schedule` of src/kernel/processes/scheduler.c). Threads live in a store that
-- is indexed by their addresses; locks, `swapgs` and the interrupt flag have no state here.
pub mod Resume
pub mod Conserve
use cthulhu_os.Prelude.{
  ℕ, ◌+◌, ◌==◌, Bool, true, false, not, ◌&&◌, Option, none, some, List, if◌then◌else◌,
}
use cthulhu_os.Process.Queues.{Queues}
use cthulhu_os.Process.Scheduler.{do_get_priority_count, get_and_update_threads, enqueue}
use mathlib.Core.Option

-- `registers_t`, what an interrupt has saved; `kind` is its `type`.
pub record Registers : Type 0 where
  pub r15 : ℕ
  pub r14 : ℕ
  pub r13 : ℕ
  pub r12 : ℕ
  pub r11 : ℕ
  pub r10 : ℕ
  pub r9 : ℕ
  pub r8 : ℕ
  pub rbp : ℕ
  pub rcx : ℕ
  pub rbx : ℕ
  pub rdx : ℕ
  pub rsi : ℕ
  pub rdi : ℕ
  pub es : ℕ
  pub ds : ℕ
  pub fs : ℕ
  pub rax : ℕ
  pub kind : ℕ
  pub ecode : ℕ
  pub rip : ℕ
  pub cs : ℕ
  pub rflags : ℕ
  pub uesp : ℕ
  pub ss : ℕ

-- `thread_t`. `pml4` is that of `parent_process`, `cont_present` is `continuation->present`.
pub record Thread : Type 0 where
  pub pml4 : ℕ
  pub priority : ℕ
  pub blocked : Bool
  pub cont_present : Bool
  pub local_info : ℕ
  pub last_rip : ℕ
  pub last_rsp : ℕ
  pub last_rax : ℕ
  pub last_rdi : ℕ
  pub last_rsi : ℕ
  pub last_rdx : ℕ
  pub last_rcx : ℕ
  pub last_r8 : ℕ
  pub last_r9 : ℕ
  pub last_r10 : ℕ
  pub last_r11 : ℕ
  pub last_rbx : ℕ
  pub last_rbp : ℕ
  pub last_r12 : ℕ
  pub last_r13 : ℕ
  pub last_r14 : ℕ
  pub last_r15 : ℕ
  pub last_rflags : ℕ

unfoldable pub copy_registers : Registers → Thread → Thread
copy_registers r t = record t {
  last_rip = r.rip;
  last_rsp = r.uesp;
  last_rax = r.rax;
  last_rcx = r.rcx;
  last_rdx = r.rdx;
  last_rdi = r.rdi;
  last_rsi = r.rsi;
  last_r8 = r.r8;
  last_r9 = r.r9;
  last_r10 = r.r10;
  last_r11 = r.r11;
  last_rbp = r.rbp;
  last_rbx = r.rbx;
  last_r12 = r.r12;
  last_r13 = r.r13;
  last_r14 = r.r14;
  last_r15 = r.r15;
  last_rflags = r.rflags;
}

unfoldable pub registers_copy : Thread → Registers → Registers
registers_copy t r = record r {
  rip = t.last_rip;
  uesp = t.last_rsp;
  rbp = t.last_rbp;
  rax = t.last_rax;
  rbx = t.last_rbx;
  rcx = t.last_rcx;
  rdx = t.last_rdx;
  rsi = t.last_rsi;
  rdi = t.last_rdi;
  r8 = t.last_r8;
  r9 = t.last_r9;
  r10 = t.last_r10;
  r11 = t.last_r11;
  r12 = t.last_r12;
  r13 = t.last_r13;
  r14 = t.last_r14;
  r15 = t.last_r15;
  rflags = t.last_rflags;
}

-- `r->cs = 40 | 0x0003` and the three data segments `32 | 0x0003`.
unfoldable pub user_segments : Registers → Registers
user_segments r = record r { cs = 43; ss = 35; ds = 35; es = 35 }

-- What `switch_to_usermode` is called with.
pub record Entry : Type 0 where
  pub rdi : ℕ
  pub rip : ℕ
  pub rsp : ℕ
  pub flags : ℕ
  pub rsi : ℕ
  pub rdx : ℕ

unfoldable pub first_entry : Thread → Entry
first_entry t = record {
  rdi = t.last_rdi;
  rip = t.last_rip;
  rsp = t.last_rsp;
  flags = 0x200;
  rsi = t.last_rsi;
  rdx = t.last_rcx;
}

abbrev pub Threads : Type 0
Threads = ℕ → Thread

unfoldable pub update : Threads → ℕ → Thread → Threads
update threads a t b = if b == a then t else threads b

module _ (queues : Queues) where
  -- `cpu_t`, with the threads that it reaches and its registers `cr3` (`active_page`) and `gs`.
  pub record Cpu : Type 0 where
    pub run_queues : List queues.Queue
    pub ct : Option ℕ
    pub current_address_space : ℕ
    pub active_page : ℕ
    pub gs : ℕ
    pub threads : Threads

  -- How a switch ends: with the interrupted code going on, with the saved registers replaced (and
  -- whether the thread's system call is then continued), in `switch_to_usermode`, waiting for
  -- threads, or by an access through NULL or past the five queues.
  pub data Switched : Type 0 where
    same_thread : Registers → Cpu → Switched
    resumed : Registers → Bool → Cpu → Switched
    entered : Entry → Cpu → Switched
    idle : Switched
    fault : Switched

  -- `set_active_page` if needed, then `current_address_space` and `gs`.
  unfoldable pub load_space : ℕ → Cpu → Cpu
  load_space new cpu = record cpu {
    active_page =
        if not ((cpu.threads new).pml4 == cpu.active_page)
        then (cpu.threads new).pml4
        else cpu.active_page;
    current_address_space = (cpu.threads new).pml4;
    gs = (cpu.threads new).local_info;
  }

  -- The end of `context_switch`, from the look at `cpu->ct` on.
  unfoldable pub leave : Option Registers → ℕ → Cpu → Switched
  unfolding registers_copy user_segments first_entry update load_space
  leave none new cpu = entered (first_entry (cpu.threads new)) (load_space new cpu)
  leave (some r) new cpu =
      let t = cpu.threads new in
      resumed (registers_copy t (user_segments r)) t.cont_present (record (load_space new cpu) {
        threads = update cpu.threads new (record t { cont_present = false });
      })

  -- `if (r != NULL && r->cs != 8) copy_registers(r, old_head)`; `none` is a write through NULL.
  unfoldable pub save : Option Registers → Option ℕ → Threads → Option Threads
  unfolding copy_registers update
  save none old threads = some threads
  save (some r) none threads = if r.cs == 8 then some threads else none
  save (some r) (some o) threads =
      some (if r.cs == 8 then threads else update threads o (copy_registers r (threads o)))

  -- The old thread goes back to its queue unless it is blocked.
  unfoldable pub requeue : Option ℕ → Threads → List queues.Queue → Option (List queues.Queue)
  unfolding enqueue
  requeue none threads qs = some qs
  requeue (some o) threads qs =
      if not (threads o).blocked then enqueue queues (threads o).priority o qs else some qs

  -- The branch `old_head != selection`.
  unfoldable pub after_save : Option Registers → ℕ → Cpu → Option Threads → Switched
  after_save r new cpu none = fault
  after_save r new cpu (some threads) =
      leave r new (record cpu { ct = some new; threads = threads })

  unfoldable pub switch_to : Option Registers → Option ℕ → ℕ → Cpu → Switched
  unfolding save after_save
  switch_to r old new cpu = after_save r new cpu (save r old cpu.threads)

  -- The other branch: from user code the same thread goes on.
  unfoldable pub stay : Option Registers → ℕ → Cpu → Switched
  stay none new cpu = leave none new cpu
  stay (some r) new cpu = if r.cs == 43 then same_thread r cpu else leave (some r) new cpu

  unfoldable pub is_thread : Option ℕ → ℕ → Bool
  is_thread none new = false
  is_thread (some o) new = o == new

  unfoldable pub after_requeue :
      Option Registers → Option ℕ → ℕ → Cpu → Option (List queues.Queue) → Switched
  unfolding switch_to stay is_thread
  after_requeue r old new cpu none = fault
  after_requeue r old new cpu (some qs) =
      let cpu' : Cpu = record cpu { run_queues = qs } in
      if is_thread old new then stay r new cpu' else switch_to r old new cpu'

  unfoldable pub context_switch : Option Registers → Cpu → Option ℕ → ℕ → Switched
  unfolding requeue after_requeue
  context_switch r cpu old new =
      after_requeue r old new cpu (requeue old cpu.threads cpu.run_queues)

  -- With a thread selected, or none (`cpu->ct` is then NULL and read through).
  switch_selected : Option Registers → Cpu → Option ℕ × List queues.Queue → Switched
  unfolding context_switch
  switch_selected r cpu (none, qs) = fault
  switch_selected r cpu (some new, qs) =
      context_switch r (record cpu { run_queues = qs }) cpu.ct new

  -- One round of `schedule`. `idle` stands for the wait: what comes next is a round with `none` for
  -- the registers, whose stack is given up, at the queues as they are then.
  unfoldable pub schedule : Option Registers → Cpu → Switched
  unfolding switch_selected do_get_priority_count get_and_update_threads
  schedule r cpu =
      if do_get_priority_count queues cpu.run_queues == 0
      then idle
      else switch_selected r cpu (get_and_update_threads queues cpu.run_queues)
