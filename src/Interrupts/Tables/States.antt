-- ===== src/Interrupts/Tables/States.antt =====
-- Where the task states of the processors stand (src/kernel/structures/gdt.c), and the addresses in
-- the gates of the interrupts (src/kernel/interrupts/idt.c).
use cthulhu_os.Prelude.{
  ℕ, zero, suc, ◌+◌, ◌-◌, ◌*◌, ◌^◌, ◌<◌, ◌≡◌, refl, ◌∙◌, true, false, ◌==◌, arith, inl, inr,
}
use cthulhu_os.Memory.Paging.Grow.{eq_or_ne}
use cthulhu_os.Interrupts.Tables.{
  Gdt, set_descriptor, tss_low, tss_high, tss_round, tss_loop, base_segments, reinitialize_gdt,
  tss_base, Gate, idt_set_gate,
}

-- Later rounds leave the descriptors below alone.
tss_loop-below :
    (tss : ℕ → ℕ) (i n itc : ℕ) (gdt : Gdt) (j : ℕ) → j < itc → tss_loop tss i n itc gdt j ≡ gdt j
unfolding tss_loop tss_round set_descriptor
tss_loop-below tss i zero itc gdt j h = refl
tss_loop-below tss i (suc n) itc gdt j h =
    let a : (j == itc) ≡ false = ground arith in
    let b : (j == itc + 1) ≡ false = ground arith in
    let c : (j == itc + 2) ≡ false = ground arith in
    tss_loop-below tss (suc i) n (itc + 2) (tss_round (tss i) itc gdt) j (omega arith)
    ∙ rw (a, b, c) refl

-- A round leaves the address of the task state in its two descriptors.
tss_round-base :
    (tss itc : ℕ) (gdt : Gdt)
    → tss < 2 ^ 64
    → (tss_base (tss_round tss itc gdt) itc ≡ tss) × ((tss_round tss itc gdt itc).type ≡ 9)
unfolding tss_base tss_round set_descriptor tss_low tss_high
tss_round-base tss itc gdt small =
    let a : (itc == itc) ≡ true = ground arith in
    let b : (itc == itc + 1) ≡ false = ground arith in
    let c : (itc == itc + 2) ≡ false = ground arith in
    let d : (itc + 1 == itc + 1) ≡ true = ground arith in
    let e : (itc + 1 == itc + 2) ≡ false = ground arith in rw (a, b, c, d, e) (omega arith, refl)

tss_base-same :
    (gdt gdt' : Gdt) (j : ℕ)
    → gdt' j ≡ gdt j
    → gdt' (j + 1) ≡ gdt (j + 1)
    → tss_base gdt' j ≡ tss_base gdt j
unfolding tss_base
tss_base-same gdt gdt' j e f = rw (e, f)

tss_loop-base :
    (tss : ℕ → ℕ) (i n itc : ℕ) (gdt : Gdt) (k : ℕ)
    → k < n
    → tss (i + k) < 2 ^ 64
    → (tss_base (tss_loop tss i n itc gdt) (itc + 2 * k) ≡ tss (i + k))
      × ((tss_loop tss i n itc gdt (itc + 2 * k)).type ≡ 9)
unfolding tss_loop
tss_loop-base tss i zero itc gdt k h s = absurd (omega arith)
tss_loop-base tss i (suc n) itc gdt k h s = elim (eq_or_ne k 0) [
  | inl z ↦
      let a : itc + 2 * k ≡ itc = omega arith in
      let b : i + k ≡ i = omega arith in
      let g = tss_round (tss i) itc gdt in
      let low = tss_loop-below tss (suc i) n (itc + 2) g itc (omega arith) in
      let high = tss_loop-below tss (suc i) n (itc + 2) g (itc + 1) (omega arith) in
      let here = tss_round-base (tss i) itc gdt (rw b at s) in
      rw (a, b)
        (tss_base-same g (tss_loop tss (suc i) n (itc + 2) g) itc low high ∙ here.0, rw low here.1)
  | inr nz ↦
      let a : itc + 2 * k ≡ itc + 2 + 2 * (k - 1) = omega arith in
      let b : i + k ≡ suc i + (k - 1) = omega arith in
      rw (a, b)
        (tss_loop-base tss (suc i) n (itc + 2) (tss_round (tss i) itc gdt) (k - 1) (omega arith)
          (rw b at s))
]

-- The task state of the processor `k` stands at the descriptor 6 + 2 k of the table that
-- `reinitialize_gdt` builds, with its whole address.
pub reinitialize_gdt-base :
    (tss : ℕ → ℕ) (n k : ℕ)
    → k < n
    → tss k < 2 ^ 64
    → (tss_base (reinitialize_gdt tss n) (6 + 2 * k) ≡ tss k)
      × ((reinitialize_gdt tss n (6 + 2 * k)).type ≡ 9)
unfolding reinitialize_gdt
reinitialize_gdt-base tss n k h s =
    let b : 0 + k ≡ k = omega arith in rw b at (tss_loop-base tss 0 n 6 base_segments k h (rw b s))

-- A gate holds the whole address of its function, and setting it leaves the other gates.
pub idt_set_gate-offset :
    (gn funcall : ℕ) (idt : ℕ → Gate)
    → funcall < 2 ^ 64
    → (let g = idt_set_gate gn funcall idt gn in
        g.offset015 + g.offset1631 * 2 ^ 16 + g.offset3263 * 2 ^ 32 ≡ funcall)
      × ((n : ℕ) → (n == gn) ≡ false → idt_set_gate gn funcall idt n ≡ idt n)
unfolding idt_set_gate
idt_set_gate-offset gn funcall idt h =
    let a : (gn == gn) ≡ true = ground arith in (rw a (omega arith), (λ n e. rw e))
