-- ===== src/Ddm/Pci.antt =====
-- The devices on PCI Express (src/ddm/pci.c): the configuration space and the search for devices. A
-- 32-bit register is a number at an address; `malloc` and `array_push_data` are the C library's, and
-- whether they succeed for the next device is an argument.
pub mod Describe
pub mod Names
pub mod Registers
pub mod Found
mod Tests
use cthulhu_os.Prelude.{
  ℕ, zero, suc, ◌+◌, ◌-◌, ◌*◌, ◌/◌, ◌%◌, ◌^◌, Bool, true, false, not, ◌⊎◌, inl, inr, ◌&&◌, Option,
  none, some, List, [], ◌∷◌, ◌++◌, leb, ◌==◌, if◌then◌else◌, sub64, length,
}
use cthulhu_os.Ddm.Pci.Describe.{index, descriptions, description}
use Prim.Native.String.{String}

-- `union busaddr`: the fields keep as many bits as they are wide.
unfoldable pub bus_number : ℕ → ℕ → ℕ → ℕ → ℕ → ℕ
bus_number bus device func ereg reg =
    reg % 64 * 4 + ereg % 16 * 256 + func % 8 * 4096 + device % 32 * 32768 + bus % 256 * 1048576

unfoldable pub config_dword : ℕ → ℕ → ℕ → ℕ → ℕ → ℕ → ℕ
unfolding bus_number
config_dword address busnum devicenum funcnum ereg reg =
    bus_number busnum devicenum funcnum ereg reg + address

-- `RREG32`: the bits from `startbit` on, one more than `width`.
unfoldable pub rreg32 : ℕ → ℕ → ℕ → ℕ
rreg32 word startbit width = word % 2 ^ (startbit + width + 1) - word % 2 ^ startbit

unfoldable pub byte_offset : ℕ → ℕ
byte_offset offset =
    if offset == 0 then 3 else if offset == 1 then 2 else if offset == 2 then 1 else 0

unfoldable pub word_offset : ℕ → ℕ
word_offset offset = if offset == 0 then 2 else if offset == 2 then 0 else offset

-- The registers of the function of a device, by `ereg` and `reg` of the caller; the casts are those
-- of the results.
module _ (mem : ℕ → ℕ) where
  unfoldable pub config_read_byte : ℕ → ℕ → ℕ → ℕ → ℕ → ℕ → ℕ → ℕ
  unfolding config_dword rreg32 byte_offset
  config_read_byte address bus device func ereg reg offset =
      let o = byte_offset offset in
      rreg32 (mem (config_dword address bus device func ereg reg)) (o * 8) 8 / 2 ^ (o * 8) % 2 ^ 8

  unfoldable pub config_read_word : ℕ → ℕ → ℕ → ℕ → ℕ → ℕ → ℕ → ℕ
  unfolding config_dword rreg32 word_offset
  config_read_word address bus device func ereg reg offset =
      let o = word_offset offset in
      rreg32 (mem (config_dword address bus device func ereg reg)) (o * 8) 16 / 2 ^ (o * 8) % 2 ^ 16

  unfoldable pub config_read_dword : ℕ → ℕ → ℕ → ℕ → ℕ → ℕ → ℕ
  unfolding config_dword
  config_read_dword address bus device func ereg reg =
      mem (config_dword address bus device func ereg reg)

  unfoldable pub config_read_qword : ℕ → ℕ → ℕ → ℕ → ℕ → ℕ → ℕ
  unfolding config_dword
  config_read_qword address bus device func ereg reg =
      (mem (config_dword address bus device func ereg reg) * 2 ^ 32
        + mem (config_dword address bus device func ereg ((reg + 1) % 256)))
      % 2 ^ 64

-- `header_spec_data.header_0`
pub record Header0 : Type 0 where
  pub bars : List ℕ
  pub cardbus_cis_ptr : ℕ
  pub subsystem_id : ℕ
  pub subsystem_v_id : ℕ
  pub exp_rom_base_address : ℕ
  pub cap_ptr : ℕ
  pub maxlat : ℕ
  pub mingrant : ℕ
  pub ipin : ℕ
  pub iline : ℕ

-- `pcie_info_t`; `status`, `command` and `bist` are addresses.
pub record PcieInfo : Type 0 where
  pub base_address : ℕ
  pub exact_address : ℕ
  pub bus : ℕ
  pub device : ℕ
  pub function : ℕ
  pub vendor_id : ℕ
  pub device_id : ℕ
  pub status : ℕ
  pub command : ℕ
  pub class : ℕ
  pub subclass : ℕ
  pub prog_if : ℕ
  pub rev_id : ℕ
  pub bist : ℕ
  pub htype : ℕ
  pub lat_timer : ℕ
  pub cache : ℕ
  pub header_0 : Option Header0
  pub cdescription : Option String
  pub ddescription : Option String

-- `pci_bus_t`
pub record BusEntry : Type 0 where
  pub bus_base_address : ℕ
  pub start_pci_busnum : ℕ
  pub end_pci_busnum : ℕ

module _ (mem : ℕ → ℕ) where
  unfoldable pub read_header_0 : ℕ → ℕ → ℕ → ℕ → Header0
  unfolding config_read_dword config_read_word
  read_header_0 base i j k =
      let dword : ℕ → ℕ = config_read_dword mem base i j k 0 in
      let word : ℕ → ℕ → ℕ = config_read_word mem base i j k 0 in
      record {
        bars = dword 4 ∷ dword 5 ∷ dword 6 ∷ dword 7 ∷ dword 8 ∷ dword 9 ∷ [];
        cardbus_cis_ptr = dword 10;
        subsystem_id = word 11 2;
        subsystem_v_id = word 11 0;
        exp_rom_base_address = dword 12;
        cap_ptr = word 13 0 % 2 ^ 8;
        maxlat = word 14 3 % 2 ^ 8;
        mingrant = word 14 2 % 2 ^ 8;
        ipin = word 14 1 % 2 ^ 8;
        iline = word 14 0 % 2 ^ 8;
      }

  -- What `load_pcie_entry_info` writes down of the function `k` of the device `j` on the bus `i`.
  unfoldable pub read_info : ℕ → ℕ → ℕ → ℕ → PcieInfo
  unfolding config_dword config_read_word config_read_byte read_header_0
  read_info base i j k =
      let byte : ℕ → ℕ → ℕ = config_read_byte mem base (i % 256) j k 0 in
      let htype : ℕ = byte 3 1 in
      record {
        base_address = base;
        exact_address = config_dword base (i % 256) j k 0 0;
        bus = i % 256;
        device = j;
        function = k;
        vendor_id = config_read_word mem base (i % 256) j k 0 0 2;
        device_id = config_read_word mem base (i % 256) j k 0 0 0;
        status = config_dword base (i % 256) j k 0 1;
        command = config_dword base (i % 256) j k 0 1;
        class = byte 2 0;
        subclass = byte 2 1;
        prog_if = byte 2 2;
        rev_id = byte 2 3;
        bist = config_dword base (i % 256) j k 0 3;
        htype = htype;
        lat_timer = byte 3 2;
        cache = byte 3 3;
        header_0 = if htype % 128 == 0 then some (read_header_0 base (i % 256) j k) else none;
        cdescription = description (byte 2 0);
        ddescription = descriptions (index (byte 2 0) (byte 2 1) (byte 2 2));
      }

-- How a loop ends: it is through, or the function has returned.
pub data Scan : Type 0 where
  through returned : List PcieInfo → Scan

unfoldable pub and_on : Scan → (List PcieInfo → Scan) → Scan
and_on (through infos) k = k infos
and_on (returned infos) k = returned infos

-- A round of a loop ends it, or the loop goes on.
unfoldable pub or_next : Scan ⊎ List PcieInfo → (List PcieInfo → Scan) → Scan
or_next (inl scan) k = scan
or_next (inr infos) k = k infos

module _ (malloc_ok push_ok : ℕ → Bool) where
  -- A function: a header without bit 7 ends the loop.
  unfoldable pub scan_function : PcieInfo → List PcieInfo → Scan ⊎ List PcieInfo
  scan_function info infos =
      if info.vendor_id == 0xFFFF
      then inr infos
      else if not (malloc_ok (length infos) && push_ok (length infos))
      then inl (returned infos)
      else if leb 128 info.htype
      then inr (infos ++ (info ∷ []))
      else inl (through (infos ++ (info ∷ [])))

  -- The loop over the functions from `k` on, `n` of them; `info` says what is found there.
  unfoldable pub scan_functions : (ℕ → PcieInfo) → ℕ → ℕ → List PcieInfo → Scan
  unfolding scan_function or_next
  scan_functions info k zero infos = through infos
  scan_functions info k (suc n) infos =
      or_next (scan_function (info k) infos) (scan_functions info (suc k) n)

  unfoldable pub scan_devices : (ℕ → ℕ → PcieInfo) → ℕ → ℕ → List PcieInfo → Scan
  unfolding scan_functions and_on
  scan_devices info j zero infos = through infos
  scan_devices info j (suc n) infos =
      and_on (scan_functions (info j) 0 7 infos) (scan_devices info (suc j) n)

  unfoldable pub scan_buses : (ℕ → ℕ → ℕ → PcieInfo) → ℕ → ℕ → List PcieInfo → Scan
  unfolding scan_devices and_on
  scan_buses info i zero infos = through infos
  scan_buses info i (suc n) infos =
      and_on (scan_devices (info i) 0 32 infos) (scan_buses info (suc i) n)

  abbrev pub entries : Scan → List PcieInfo
  entries (through infos) = infos
  entries (returned infos) = infos

  -- `self_map_physical` maps the space of a bus entry or answers NULL. `mem` is what stands there.
  unfoldable pub load_pcie_entry_info :
      (ℕ → ℕ) → (BusEntry → ℕ) → BusEntry → List PcieInfo → List PcieInfo
  unfolding scan_buses
  load_pcie_entry_info mem self_map_physical bi infos =
      let base = self_map_physical bi in
      let numentries = sub64 bi.end_pci_busnum bi.start_pci_busnum in
      let scanned = entries (scan_buses (read_info mem base) 0 numentries infos) in
      if base == 0 then infos else scanned

  -- `load_pcie_info` with the answer of `get_pci_info`; there is no entry if the count is 0 or less.
  unfoldable pub load_pcie_info :
      (ℕ → ℕ) → (BusEntry → ℕ) → List BusEntry → List PcieInfo → List PcieInfo
  unfolding load_pcie_entry_info
  load_pcie_info mem self_map_physical [] infos = infos
  load_pcie_info mem self_map_physical (bi ∷ bis) infos =
      load_pcie_info mem self_map_physical bis (load_pcie_entry_info mem self_map_physical bi infos)
