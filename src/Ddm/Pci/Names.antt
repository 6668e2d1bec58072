-- ===== src/Ddm/Pci/Names.antt =====
-- The names of devices (src/ddm/pci.c): what `descriptions` holds at an index.
use cthulhu_os.Prelude.{
  ℕ, zero, suc, ◌+◌, ◌/◌, ◌%◌, ◌≤◌, ◌<◌, ◌≡◌, refl, ◌⊎◌, inl, inr, true, false, Option, none, some,
  arith, ◌==◌, if◌then◌else◌, Bool-cases, ltb,
}
use cthulhu_os.Ddm.Pci.Describe.{
  rules, named_by, index, assign, loop_p, loop_sc, loop_cc, descriptions,
}
use Prim.Native.String.{String}

-- The element holds the name of the triple.
Holds : (ℕ → Option String) → ℕ → ℕ → ℕ → Type 0
Holds d c sc p = d (index c sc p) ≡ some (named_by rules c sc p)

loop_p-Holds : (c sc n : ℕ) (d : ℕ → Option String) (p : ℕ) → p < n → Holds (loop_p c sc n d) c sc p
unfolding Holds loop_p assign
loop_p-Holds c sc zero d p h = absurd (omega arith)
loop_p-Holds c sc (suc n) d p h = elim (Bool-cases (p == n)) [
  | inl e ↦
      let q : p ≡ n = ground arith in
      let f : (index c sc n == index c sc n) ≡ true = ground arith in rw (q, f)
  | inr e ↦
      let f : (index c sc p == index c sc n) ≡ false = ground arith in
      rw f (loop_p-Holds c sc n d p (ground arith))
]

-- Other elements stay.
loop_p-outside :
    (c sc n : ℕ) (d : ℕ → Option String) (i : ℕ)
    → (i < index c sc 0) ⊎ (index c sc n ≤ i)
    → loop_p c sc n d i ≡ d i
unfolding loop_p assign
loop_p-outside c sc zero d i h = refl
loop_p-outside c sc (suc n) d i h =
    let f : (i == index c sc n) ≡ false = ground arith in
    rw f (loop_p-outside c sc n d i (ground arith))

loop_sc-Holds :
    (c n : ℕ) (d : ℕ → Option String) (sc p : ℕ) → sc < n → p < 128 → Holds (loop_sc c n d) c sc p
unfolding loop_sc Holds
loop_sc-Holds c zero d sc p h k = absurd (omega arith)
loop_sc-Holds c (suc n) d sc p h k = elim (Bool-cases (sc == n)) [
  | inl e ↦ let q : sc ≡ n = ground arith in rw q (loop_p-Holds c n 128 (loop_sc c n d) p k)
  | inr e ↦
      rw (loop_p-outside c n 128 (loop_sc c n d) (index c sc p) (inl (ground arith)))
        (loop_sc-Holds c n d sc p (ground arith) k)
]

loop_sc-outside :
    (c n : ℕ) (d : ℕ → Option String) (i : ℕ)
    → (i < index c 0 0) ⊎ (index c n 0 ≤ i)
    → loop_sc c n d i ≡ d i
unfolding loop_sc
loop_sc-outside c zero d i h = refl
loop_sc-outside c (suc n) d i h = rw (
  loop_p-outside c n 128 (loop_sc c n d) i (ground arith),
  loop_sc-outside c n d i (ground arith),
)

loop_cc-Holds :
    (n : ℕ) (d : ℕ → Option String) (c sc p : ℕ)
    → c < n
    → sc < 128
    → p < 128
    → Holds (loop_cc n d) c sc p
unfolding loop_cc Holds
loop_cc-Holds zero d c sc p h k l = absurd (omega arith)
loop_cc-Holds (suc n) d c sc p h k l = elim (Bool-cases (c == n)) [
  | inl e ↦ let q : c ≡ n = ground arith in rw q (loop_sc-Holds n 128 (loop_cc n d) sc p k l)
  | inr e ↦
      rw (loop_sc-outside n 128 (loop_cc n d) (index c sc p) (inl (ground arith)))
        (loop_cc-Holds n d c sc p (ground arith) k l)
]

loop_cc-outside : (n : ℕ) (d : ℕ → Option String) (i : ℕ) → index n 0 0 ≤ i → loop_cc n d i ≡ d i
unfolding loop_cc
loop_cc-outside zero d i h = refl
loop_cc-outside (suc n) d i h =
    rw (
      loop_sc-outside n 128 (loop_cc n d) i (inr (omega arith)),
      loop_cc-outside n d i (omega arith),
    )

-- The element for a class, a subclass and an interface below 256, as `load_pcie_entry_info` takes
-- it, holds the name of the triple that is left when what exceeds 127 is carried over: a device of
-- subclass 0x80 gets a name of the next class. From class 128 on the element was never set.
pub descriptions-carried :
    (c sc p : ℕ)
    → descriptions (index c sc p) ≡ (
        let sc' = sc + p / 128 in
        let c' = c + sc' / 128 in
        if ltb c' 128 then some (named_by rules c' (sc' % 128) (p % 128)) else none)
unfolding descriptions Holds
descriptions-carried c sc p =
    let c' : ℕ = c + (sc + p / 128) / 128 in
    let sc' : ℕ = (sc + p / 128) % 128 in
    let same : index c sc p ≡ index c' sc' (p % 128) = omega arith in
    elim (Bool-cases (ltb c' 128)) [
      | inl e ↦
          rw (e, same)
            (loop_cc-Holds 128 (λ i. none) c' sc' (p % 128) (ground arith) (omega arith)
              (omega arith))
      | inr e ↦ rw (e, loop_cc-outside 128 (λ i. none) (index c sc p) (ground arith))
    ]
