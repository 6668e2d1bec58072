-- ===== src/Process/Switch/Resume.antt =====
-- A thread that was taken off the processor goes on with the registers that it had.
use cthulhu_os.Prelude.{◌≡◌}
use cthulhu_os.Process.Queues.{Queues}
use cthulhu_os.Process.Switch.{Registers, Cpu, Switched, resumed, same_thread, entered, idle, fault}

-- `after` runs user code in the place at which `before` was interrupted, with all its registers.
pub record Continues (before after : Registers) : Type 0 where
  pub same_rip : after.rip ≡ before.rip
  pub same_rsp : after.uesp ≡ before.uesp
  pub same_rax : after.rax ≡ before.rax
  pub same_rcx : after.rcx ≡ before.rcx
  pub same_rdx : after.rdx ≡ before.rdx
  pub same_rdi : after.rdi ≡ before.rdi
  pub same_rsi : after.rsi ≡ before.rsi
  pub same_r8 : after.r8 ≡ before.r8
  pub same_r9 : after.r9 ≡ before.r9
  pub same_r10 : after.r10 ≡ before.r10
  pub same_r11 : after.r11 ≡ before.r11
  pub same_rbp : after.rbp ≡ before.rbp
  pub same_rbx : after.rbx ≡ before.rbx
  pub same_r12 : after.r12 ≡ before.r12
  pub same_r13 : after.r13 ≡ before.r13
  pub same_r14 : after.r14 ≡ before.r14
  pub same_r15 : after.r15 ≡ before.r15
  pub same_rflags : after.rflags ≡ before.rflags
  pub code : after.cs ≡ 43
  pub stack : after.ss ≡ 35
  pub user_data : after.ds ≡ 35
  pub extra_data : after.es ≡ 35

module _ (queues : Queues) where
  -- The processor after a switch.
  abbrev cpu_of : Cpu queues → Switched queues → Cpu queues
  cpu_of cpu (same_thread r c) = c
  cpu_of cpu (resumed r b c) = c
  cpu_of cpu (entered e c) = c
  cpu_of cpu idle = cpu
  cpu_of cpu fault = cpu
