-- ===== src/Structures/Acpi/Start.antt =====
-- How `init_table_acpi` ends (src/kernel/structures/acpi.c).
use cthulhu_os.Prelude.{ℕ, ◌+◌, ◌%◌, ◌≡◌, ◌≢◌, Option, none, some, ◌==◌, if◌then◌else◌, u8}
use cthulhu_os.Structures.Acpi.{
  Bytes, rsd_ptr, read, sdt_length, Tables, find_table_general, find_rsdp, Init, ended, fault, facp,
}
use cthulhu_os.Structures.Acpi.Search.{byte_sum, Named, IsTable}

-- A descriptor: its name, and its bytes, 20 of version 1 and 36 of a later one, sum up to 0 modulo 256.
pub record IsRsdp (m : Bytes) (d version : ℕ) : Type 0 where
  pub named : Named m d rsd_ptr
  pub revision : version ≡ (m (d + 15) + 1) % u8
  pub checked : byte_sum m d (if version == 1 then 20 else 36) % u8 ≡ 0

-- What the search for the descriptor answers.
abbrev OfRsdp : Bytes → Option ℕ × ℕ → Type 0
OfRsdp m (none, v) = Unit
OfRsdp m (some d, v) = IsRsdp m d v

-- Where the descriptor has the root table: at offset 16 in 4 bytes for version 1, and at offset 24 in 8
-- bytes otherwise.
abbrev pub root_of : Bytes → (ℕ → ℕ) → ℕ → ℕ → ℕ
root_of m virtual d version =
    if version == 1 then virtual (read m (d + 16) 4) else virtual (read m (d + 24) 8)

-- The root table of the descriptor, checked.
pub record IsRooted (m : Bytes) (virtual : ℕ → ℕ) (s : Tables) (root : ℕ) : Type 0 where
  pub descriptor : ℕ
  pub kept : s.rsdp_descriptor ≡ some descriptor
  pub rsdp : IsRsdp m descriptor s.acpi_version
  pub place : root ≡ root_of m virtual descriptor s.acpi_version
  pub version : if s.acpi_version == 1 then s.rsdt ≡ some root else s.xsdt ≡ some root
  pub checked : byte_sum m root (sdt_length m root) % u8 ≡ 0

pub data Ready (m : Bytes) (virtual : ℕ → ℕ) (ebda century : ℕ) : Init → Type 0 where
  no_rsdp :
      {s : Tables}
      → (find_rsdp m ebda 0).0 ≡ none
      → s.rsdt ≡ none
      → s.xsdt ≡ none
      → s.fadt ≡ none
      → Ready m virtual ebda century (ended s century)
  wrong_root :
      {s : Tables} {d : ℕ}
      → s.rsdp_descriptor ≡ some d
      → IsRsdp m d s.acpi_version
      → (let root = root_of m virtual d s.acpi_version in
          byte_sum m root (sdt_length m root) % u8 ≢ 0)
      → s.rsdt ≡ none
      → s.xsdt ≡ none
      → s.fadt ≡ none
      → Ready m virtual ebda century (ended s century)
  with_fadt :
      {s : Tables} {root t : ℕ}
      → IsRooted m virtual s root
      → s.fadt ≡ some t
      → IsTable m facp t
      → find_table_general m virtual s facp ≡ some t
      → Ready m virtual ebda century (ended s (m (t + 108)))
  no_fadt :
      {s : Tables} {root : ℕ}
      → IsRooted m virtual s root
      → find_table_general m virtual s facp ≡ none
      → Ready m virtual ebda century fault
