-- ===== src/Structures/Acpi/Mcfg.antt =====
-- The loops over the MCFG table (src/kernel/structures/acpi.c: `get_pcie_numcount`,
-- `get_pcie_info`).
use cthulhu_os.Prelude.{
  ℕ, zero, suc, ◌+◌, ◌*◌, ◌/◌, ◌%◌, ◌<◌, ◌≡◌, ◌≢◌, refl, none, some, List, [], ◌∷◌, Bool-cases, inl,
  inr, ◌==◌, u64, sub64, arith,
}
use cthulhu_os.Structures.Acpi.{
  Bytes, sdt_length, Tables, find_table_general, mcfg, count_loop, PciBus, pci_bus_at, info_loop,
  get_pcie_numcount, get_pcie_info,
}

count_loop-some :
    (n fuel bytes num : ℕ)
    → n < fuel
    → bytes ≡ 16 * n
    → bytes < u64
    → count_loop fuel bytes num ≡ some (num + n)
unfolding count_loop
count_loop-some zero zero bytes num h e b = ground arith
count_loop-some zero (suc fuel) bytes num h e b = ground arith
count_loop-some (suc n) zero bytes num h e b = ground arith
count_loop-some (suc n) (suc fuel) bytes num h e b = ground (
  arith,
  count_loop-some n fuel (sub64 bytes 16) (num + 1) (omega arith) (omega arith) (omega arith),
)

count_loop-none :
    (fuel bytes num : ℕ) → bytes % 16 ≢ 0 → bytes < u64 → count_loop fuel bytes num ≡ none
unfolding count_loop
count_loop-none zero bytes num h b = refl
count_loop-none (suc fuel) bytes num h b =
    ground (arith, count_loop-none fuel (sub64 bytes 16) (num + 1) (omega arith) (omega arith))

-- The allocations that stand one behind the other from `addr` on.
abbrev pub allocations : Bytes → ℕ → ℕ → List PciBus
unfolding pci_bus_at
allocations m addr zero = []
allocations m addr (suc n) = pci_bus_at m addr ∷ allocations m (addr + 16) n

info_loop-allocations :
    (m : Bytes) (n fuel bytes addr : ℕ)
    → n < fuel
    → bytes ≡ 16 * n
    → bytes < u64
    → info_loop m fuel bytes addr ≡ some (allocations m addr n)
unfolding info_loop
info_loop-allocations m zero zero bytes addr h e b = ground arith
info_loop-allocations m zero (suc fuel) bytes addr h e b = rw e refl
info_loop-allocations m (suc n) zero bytes addr h e b = ground arith
info_loop-allocations m (suc n) (suc fuel) bytes addr h e b = elim (Bool-cases (bytes == 0)) [
  | inl z ↦ ground arith
  | inr z ↦
      rw
        (
          z,
          info_loop-allocations m n fuel (sub64 bytes 16) (addr + 16) (omega arith) (omega arith)
              (omega arith),
        )
        refl
]

info_loop-none :
    (m : Bytes) (fuel bytes addr : ℕ)
    → bytes % 16 ≢ 0
    → bytes < u64
    → info_loop m fuel bytes addr ≡ none
unfolding info_loop
info_loop-none m zero bytes addr h b = refl
info_loop-none m (suc fuel) bytes addr h b = elim (Bool-cases (bytes == 0)) [
  | inl z ↦ ground arith
  | inr z ↦
      rw (z, info_loop-none m fuel (sub64 bytes 16) (addr + 16) (omega arith) (omega arith)) refl
]

-- What the two functions do with a table of which `bytes` bytes follow the header: `extra` are
-- rounds that are left over, `fuel` is any number of rounds.
pub data Ends (m : Bytes) (virtual : ℕ → ℕ) (s : Tables) (t bytes extra fuel : ℕ) : Type 0 where
  counted :
      bytes % 16 ≡ 0
      → get_pcie_numcount m virtual s (suc (bytes / 16 + extra)) ≡ some (some (bytes / 16))
      → get_pcie_info m virtual s (suc (bytes / 16 + extra))
        ≡ some (allocations m (t + 44) (bytes / 16))
      → Ends m virtual s t bytes extra fuel
  endless :
      bytes % 16 ≢ 0
      → get_pcie_numcount m virtual s fuel ≡ none
      → get_pcie_info m virtual s fuel ≡ none
      → Ends m virtual s t bytes extra fuel

-- Where there is an MCFG table, both loops end exactly if the bytes behind its header are a multiple
-- of 16. Then the allocations are counted and stored in order, in one round for each and the last
-- test; otherwise no number of rounds is enough.
pub get_pcie_info-Ends :
    (m : Bytes) (virtual : ℕ → ℕ) (s : Tables) (t extra fuel : ℕ)
    → find_table_general m virtual s mcfg ≡ some t
    → Ends m virtual s t (sub64 (sdt_length m t) 44) extra fuel
unfolding get_pcie_numcount get_pcie_info
get_pcie_info-Ends m virtual s t extra fuel e =
    let bytes = sub64 (sdt_length m t) 44 in
    elim (Bool-cases (bytes % 16 == 0)) [
      | inl z ↦
          counted (ground arith)
            (rw
              (
                e,
                count_loop-some (bytes / 16) (suc (bytes / 16 + extra)) bytes 0 (omega arith)
                    (ground arith) (omega arith),
              )
              (ground arith))
            (rw
              (
                e,
                info_loop-allocations m (bytes / 16) (suc (bytes / 16 + extra)) bytes (t + 44)
                    (omega arith) (ground arith) (omega arith),
              )
              refl)
      | inr z ↦
          endless (ground arith)
            (rw (e, count_loop-none fuel bytes 0 (ground arith) (omega arith)) refl)
            (rw (e, info_loop-none m fuel bytes (t + 44) (ground arith) (omega arith)) refl)
    ]
