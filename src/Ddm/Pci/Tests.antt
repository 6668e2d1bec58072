-- ===== src/Ddm/Pci/Tests.antt =====
-- Runs of the search for devices.
use cthulhu_os.Prelude.{ℕ, ◌+◌, ◌*◌, ◌/◌, ◌%◌, ◌^◌, ◌≡◌, refl, some, arith, ◌-◌}
use cthulhu_os.Ddm.Pci.Describe.{descriptions, rules, named_by, index, applies, interface_holds}
use cthulhu_os.Ddm.Pci.Names.{descriptions-carried}
use cthulhu_os.Ddm.Pci.{BusEntry, config_dword, config_read_byte, config_read_dword}
use cthulhu_os.Ddm.Pci.Registers.{config_dword-fields, config_read_byte-dword}

-- A mass storage controller of subclass 0x80 is called by a name of class 2.
other_storage : descriptions (index 1 0x80 0) ≡ some "Ethernet Controller"
unfolding named_by applies interface_holds
other_storage = descriptions-carried 1 0x80 0

descriptions-carried_example : descriptions (index 6 4 1) ≡ some (named_by rules 6 4 1)
descriptions-carried_example = descriptions-carried 6 4 1

-- Registers that hold their own address.
abbrev own_address : ℕ → ℕ
own_address a = a % 2 ^ 32

config_dword-fields_example :
    let a = config_dword 0xE0000000 3 31 7 0 1 in
    (a / 2 ^ 20 % 256 ≡ 3)
    × (a / 2 ^ 15 % 32 ≡ 31)
    × (a / 2 ^ 12 % 8 ≡ 7)
    × (a / 256 % 16 ≡ 0)
    × (a / 4 % 64 ≡ 1)
    × (a % 4 ≡ 0)
    × (a - a % 2 ^ 28 ≡ 0xE0000000)
config_dword-fields_example =
    config_dword-fields 0xE0000000 3 31 7 0 1 (omega arith) (omega arith) (omega arith)
      (omega arith) (omega arith) refl

config_read_byte-dword_example :
    config_read_byte own_address 0xE0000000 0 2 1 0 3 0 * 2 ^ 24
      + config_read_byte own_address 0xE0000000 0 2 1 0 3 1 * 2 ^ 16
      + config_read_byte own_address 0xE0000000 0 2 1 0 3 2 * 2 ^ 8
      + config_read_byte own_address 0xE0000000 0 2 1 0 3 3
    ≡ config_read_dword own_address 0xE0000000 0 2 1 0 3
unfolding config_read_dword
config_read_byte-dword_example =
    config_read_byte-dword own_address 0xE0000000 0 2 1 0 3 (omega arith)

abbrev entry : BusEntry
entry = record { bus_base_address = 0xE0000000; start_pci_busnum = 0; end_pci_busnum = 255 }
