-- ===== src/Structures/Acpi/Tests.antt =====
-- A memory with an RSDP at 0x9000, an RSDT at 0x100, an MCFG table with one allocation at 0x200 and
-- an FADT at 0x300.
use cthulhu_os.Prelude.{ℕ, ◌≡◌, refl, none, some, List, [], ◌∷◌, ◌==◌, if◌then◌else◌, sub64}
use cthulhu_os.Structures.Acpi.{
  Bytes, sdt_length, Tables, find_table_general, mcfg, ended, init_fadt, init_table_acpi, find_rsdp,
}
use cthulhu_os.Structures.Acpi.Mcfg.{Ends, get_pcie_info-Ends}

abbrev bytes_of : List (ℕ × ℕ) → Bytes
bytes_of [] a = 0
bytes_of ((b, v) ∷ rest) a = let next = bytes_of rest a in if a == b then v else next

abbrev memory : Bytes
memory = bytes_of (
    (0x9000, 0x52)
    ∷ (0x9001, 0x53)
    ∷ (0x9002, 0x44)
    ∷ (0x9003, 0x20)
    ∷ (0x9004, 0x50)
    ∷ (0x9005, 0x54)
    ∷ (0x9006, 0x52)
    ∷ (0x9007, 0x20)
    ∷ (0x9008, 224)
    ∷ (0x9011, 1)
    ∷ (0x100, 82)
    ∷ (0x101, 83)
    ∷ (0x102, 68)
    ∷ (0x103, 84)
    ∷ (0x104, 44)
    ∷ (0x109, 146)
    ∷ (0x125, 2)
    ∷ (0x129, 3)
    ∷ (0x200, 0x4D)
    ∷ (0x201, 0x43)
    ∷ (0x202, 0x46)
    ∷ (0x203, 0x47)
    ∷ (0x204, 60)
    ∷ (0x209, 167)
    ∷ (0x300, 0x46)
    ∷ (0x301, 0x41)
    ∷ (0x302, 0x43)
    ∷ (0x303, 0x50)
    ∷ (0x304, 116)
    ∷ (0x309, 64)
    ∷ (0x36C, 50)
    ∷ [])

abbrev physical : ℕ → ℕ
physical a = a

abbrev tables : Tables
tables = record {
  rsdp_descriptor = some 0x9000;
  rsdt = some 0x100;
  xsdt = none;
  fadt = none;
  acpi_version = 1;
}

init_table_acpi_run :
    init_table_acpi memory physical 0x9000 0 ≡ ended (record tables { fadt = some 0x300 }) 50
unfolding init_table_acpi find_rsdp init_fadt
init_table_acpi_run = refl

find_mcfg : find_table_general memory physical tables mcfg ≡ some 0x200
unfolding find_table_general
find_mcfg = refl

get_pcie_info-Ends_example :
    Ends memory physical tables 0x200 (sub64 (sdt_length memory 0x200) 44) 3 20
get_pcie_info-Ends_example = get_pcie_info-Ends memory physical tables 0x200 3 20 find_mcfg
