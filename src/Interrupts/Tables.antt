-- ===== src/Interrupts/Tables.antt =====
-- The descriptor tables (src/kernel/structures/gdt.c, src/kernel/interrupts/idt.c): the base_segments, the
-- task states of the processors with their stacks, and the gates of the interrupts.
pub mod States
mod Tests
use cthulhu_os.Prelude.{
  ℕ, zero, suc, ◌+◌, ◌*◌, ◌/◌, ◌%◌, ◌^◌, ◌-◌, Bool, true, false, not, ◌&&◌, List, [], ◌∷◌, ◌++◌,
  ltb, leb, ◌==◌, if◌then◌else◌,
}
use cthulhu_os.Cpus.Start.{MadeCpu}

-- `descriptor_t`
pub record Descriptor : Type 0 where
  pub limit0015 : ℕ
  pub base0015 : ℕ
  pub base2316 : ℕ
  pub type : ℕ
  pub s : ℕ
  pub dpl : ℕ
  pub p : ℕ
  pub l : ℕ
  pub g : ℕ
  pub base3124 : ℕ

-- The table, by the index of a descriptor.
abbrev pub Gdt : Type 0
Gdt = ℕ → Descriptor

abbrev pub zero_descriptor : Descriptor
zero_descriptor = record {
  limit0015 = 0;
  base0015 = 0;
  base2316 = 0;
  type = 0;
  s = 0;
  dpl = 0;
  p = 0;
  l = 0;
  g = 0;
  base3124 = 0;
}

unfoldable pub set_descriptor : ℕ → Descriptor → Gdt → Gdt
set_descriptor i d gdt j = if j == i then d else gdt j

-- The first half of a `tss_descriptor_t` for a task state at an address; its size is 104.
unfoldable pub tss_low : ℕ → Descriptor → Descriptor
tss_low tss d = record d {
  limit0015 = 104;
  base0015 = tss % 2 ^ 16;
  base2316 = tss / 2 ^ 16 % 2 ^ 8;
  base3124 = tss / 2 ^ 24 % 2 ^ 8;
  s = 0;
  dpl = 0;
  g = 0;
  type = 9;
  p = 1;
}

-- The second half begins with `base6332`, where a descriptor has its limit and its base.
unfoldable pub tss_high : ℕ → Descriptor → Descriptor
tss_high tss d = record d { limit0015 = tss / 2 ^ 32 % 2 ^ 16; base0015 = tss / 2 ^ 48 % 2 ^ 16 }

unfoldable pub user_segment : Descriptor → Descriptor
user_segment d = record d { s = 1; type = 2; p = 1; dpl = 3 }

-- A round of the loop over the processors at `itc`; the segment for `gs` comes behind the task
-- state, where the next round writes.
unfoldable pub tss_round : ℕ → ℕ → Gdt → Gdt
tss_round tss itc gdt =
    let g1 = set_descriptor itc (tss_low tss (gdt itc)) gdt in
    let g2 = set_descriptor (itc + 1) (tss_high tss (g1 (itc + 1))) g1 in
    set_descriptor (itc + 2) (user_segment (g2 (itc + 2))) g2

-- The loop from the processor `i` on, with `n` left; `tss i` is the address of its task state.
unfoldable pub tss_loop : (ℕ → ℕ) → ℕ → ℕ → ℕ → Gdt → Gdt
tss_loop tss i zero itc gdt = gdt
tss_loop tss i (suc n) itc gdt = tss_loop tss (suc i) n (itc + 2) (tss_round (tss i) itc gdt)

unfoldable pub base_segments : Gdt
unfolding set_descriptor
base_segments =
    set_descriptor 1 (record zero_descriptor { s = 1; type = 10; p = 1; l = 1 })
      (set_descriptor 2 (record zero_descriptor { s = 1; type = 2; p = 1 })
        (set_descriptor 4 (record zero_descriptor { s = 1; type = 2; p = 1; dpl = 3 })
          (set_descriptor 5 (record zero_descriptor { s = 1; type = 10; dpl = 3; p = 1; l = 1 })
            (λ i. zero_descriptor))))

-- `reinitialize_gdt` for `n` processors.
unfoldable pub reinitialize_gdt : (ℕ → ℕ) → ℕ → Gdt
reinitialize_gdt tss n = tss_loop tss 0 n 6 base_segments

-- The address that the processor reads from a descriptor of a task state.
unfoldable pub tss_base : Gdt → ℕ → ℕ
tss_base gdt i =
    let low = gdt i in
    let high = gdt (i + 1) in
    low.base0015
    + low.base2316 * 2 ^ 16
    + low.base3124 * 2 ^ 24
    + (high.limit0015 + high.base0015 * 2 ^ 16) * 2 ^ 32

-- The index of the selector that `ap_main` loads for the processor at the place `ord`.
unfoldable pub ap_selector : ℕ → ℕ
ap_selector ord = (ord * 24 + 48) / 8

-- The stacks of the task state of a processor: 0 is `rsp0`.
unfoldable pub tss_stack : MadeCpu → ℕ → ℕ
tss_stack cpu ist =
    if ist == 0
    then cpu.stack
    else if ist == 1
    then cpu.handler_stack
    else if ist == 2
    then cpu.pf_stack
    else if ist == 3
    then cpu.df_stack
    else if ist == 4
    then cpu.ipi_stack
    else 0

-- `idt_gate_t`
pub record Gate : Type 0 where
  pub offset015 : ℕ
  pub selector : ℕ
  pub ist : ℕ
  pub gate_type : ℕ
  pub gate_dpl : ℕ
  pub gate_p : ℕ
  pub offset1631 : ℕ
  pub offset3263 : ℕ

unfoldable pub gate_ist : ℕ → ℕ
gate_ist gn = if gn == 14 then 1 else if gn == 8 then 2 else if gn == 255 then 3 else 0

unfoldable pub idt_set_gate : ℕ → ℕ → (ℕ → Gate) → ℕ → Gate
unfolding gate_ist
idt_set_gate gn funcall idt n =
    if n == gn
    then record {
      offset015 = funcall % 2 ^ 16;
      selector = 8;
      ist = gate_ist gn;
      gate_type = 14;
      gate_dpl = 0;
      gate_p = 1;
      offset1631 = funcall / 2 ^ 16 % 2 ^ 16;
      offset3263 = funcall / 2 ^ 32 % 2 ^ 32;
    }
    else idt n

-- The gates of `initialize_interrupts` from `gn` on, `n` of them; `isr` are the addresses.
unfoldable pub set_gates : (ℕ → ℕ) → ℕ → ℕ → (ℕ → Gate) → ℕ → Gate
set_gates isr gn zero idt = idt
set_gates isr gn (suc n) idt = set_gates isr (suc gn) n (idt_set_gate gn (isr gn) idt)

-- `IRQ_set_mask` and `IRQ_clear_mask`: the port, and the bit in what is read from it.
unfoldable pub irq_bit : ℕ → ℕ × ℕ
irq_bit line = if ltb line 8 then (0x21, line) else (0xA1, line - 8)

unfoldable pub irq_set_mask : ℕ → (ℕ → ℕ) → ℕ × ℕ
unfolding irq_bit
irq_set_mask line inb =
    let (port, k) = irq_bit line in
    let value = inb port in
    (port, (if value / 2 ^ k % 2 == 1 then value else value + 2 ^ k) % 2 ^ 8)

unfoldable pub irq_clear_mask : ℕ → (ℕ → ℕ) → ℕ × ℕ
unfolding irq_bit
irq_clear_mask line inb =
    let (port, k) = irq_bit line in
    let value = inb port in
    (port, (if value / 2 ^ k % 2 == 1 then value - 2 ^ k else value) % 2 ^ 8)

-- The acknowledgements of `isr_handler` for an interrupt: the ports of the two controllers that get
-- 0x20, and the register of the local APIC.
unfoldable pub acknowledged : ℕ → List ℕ
acknowledged type =
    if ltb 31 type && ltb type 48
    then (if leb 40 type && not (type == 47) then 0xA0 ∷ [] else [])
      ++ (if type == 39 then [] else 0x20 ∷ [])
    else if type == 255
    then 0xB0 ∷ []
    else []
