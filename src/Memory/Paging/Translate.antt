-- ===== src/Memory/Paging/Translate.antt =====
-- `virtual_to_physical` of src/kernel/memory/paging.c.
use cthulhu_os.Prelude.{
  ℕ, ◌+◌, ◌*◌, ◌/◌, ◌%◌, ◌^◌, ◌≡◌, refl, Bool, true, false, not, ◌&&◌, ltb, if◌then◌else◌, arith,
  add64,
}
use cthulhu_os.Memory.Frames.{align}
use cthulhu_os.Memory.Paging.{FramePool, Memory, present, bit, table}

-- `ADDRESS_OFFSET`
unfoldable address_offset : ℕ → ℕ
address_offset offset = add64 0xFFFF000000000000 (offset * 2 ^ 39)

module _ (pool : FramePool) where
  -- The address and `*valid`; `big` is `is_1GB_paging_supported()`.
  unfoldable pub virtual_to_physical : Bool → ℕ → ℕ → Memory pool → ℕ × Bool
  unfolding align present table address_offset
  virtual_to_physical big vaddress cr3 m =
      let pdpt = align (m.words (align cr3) (vaddress / 2 ^ 39 % 512)) in
      let directory = align (m.words pdpt (vaddress / 2 ^ 30 % 512)) in
      let pt = align (m.words directory (vaddress / 2 ^ 21 % 512)) in
      let mapped = ltb (address_offset 510) vaddress && ltb vaddress (address_offset 511) && big in
      if not (present pdpt)
      then (0, false)
      else if mapped
      then (pdpt / 2 ^ 30 % 2 ^ 24 + vaddress % 2 ^ 30, true)
      else if not (present directory)
      then (0, false)
      else if not (present pt)
      then (0, false)
      else if not (present (m.words pt 0))
      then (0, false)
      else (align (m.words pt 0) + vaddress % 0x1000, true)

  align-absent : (a : ℕ) → present (align a) ≡ false
  unfolding present bit align
  align-absent a = ground arith

  -- `virtual_to_physical` finds no address, whatever the tables hold.
  pub virtual_to_physical-fails :
      (big : Bool) (vaddress cr3 : ℕ) (m : Memory pool)
      → virtual_to_physical big vaddress cr3 m ≡ (0, false)
  unfolding virtual_to_physical
  virtual_to_physical-fails big vaddress cr3 m =
      rw (align-absent (m.words (align cr3) (vaddress / 2 ^ 39 % 512))) refl
