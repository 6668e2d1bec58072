-- ===== src/Interrupts/Tables/Tests.antt =====
-- The tables of two processors.
use cthulhu_os.Prelude.{ℕ, ◌+◌, ◌*◌, ◌/◌, ◌%◌, ◌^◌, ◌<◌, ◌≡◌, refl, false, ◌==◌, arith}
use cthulhu_os.Cpus.Start.{MadeCpu}
use cthulhu_os.Interrupts.Tables.{
  reinitialize_gdt, tss_loop, tss_round, tss_base, tss_low, tss_high, user_segment, ap_selector,
  irq_set_mask, tss_stack, gate_ist, set_descriptor, base_segments,
}
use cthulhu_os.Interrupts.Tables.States.{reinitialize_gdt-base}

abbrev tss : ℕ → ℕ
tss i = 0xFFFF800000100000 + 104 * i

reinitialize_gdt-base_example :
    (tss_base (reinitialize_gdt tss 2) (6 + 2 * 1) ≡ tss 1)
    × ((reinitialize_gdt tss 2 (6 + 2 * 1)).type ≡ 9)
reinitialize_gdt-base_example = reinitialize_gdt-base tss 2 1 (omega arith) (omega arith)

-- The second processor loads the second half of its task state.
second_selector : (ap_selector 1 ≡ 9) × ((reinitialize_gdt tss 2 9).type ≡ 0)
unfolding ap_selector reinitialize_gdt tss_loop tss_round tss_low tss_high user_segment
    set_descriptor base_segments
second_selector = (refl, refl)

-- A page fault gets the stack of the handlers, a double fault that of page faults.
fault_stacks :
    (cpu : MadeCpu)
    → (tss_stack cpu (gate_ist 14) ≡ cpu.handler_stack)
      × (tss_stack cpu (gate_ist 8) ≡ cpu.pf_stack)
      × (tss_stack cpu (gate_ist 255) ≡ cpu.df_stack)
unfolding tss_stack gate_ist
fault_stacks cpu = (refl, refl, refl)

-- `initialize_interrupts` passes numbers of interrupts where lines are meant: nothing is masked.
mask_without_effect : (v : ℕ) → v < 256 → irq_set_mask 32 (λ port. v) ≡ (0xA1, v)
unfolding irq_set_mask
mask_without_effect v h =
    let a : (v / 2 ^ 24 % 2 == 1) ≡ false = ground arith in
    let b : (v + 2 ^ 24) % 2 ^ 8 ≡ v = omega arith in rw (a, b) refl
