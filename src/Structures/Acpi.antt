-- ===== src/Structures/Acpi.antt =====
-- The ACPI tables (src/kernel/structures/acpi.c). Memory is a function from addresses to bytes;
-- `virtual` is `physical_to_virtual`. A table is the address of its header: the length stands at 4
-- and the header is 36 bytes long. NULL is `none`.
pub mod Search
pub mod Mcfg
pub mod Start
mod Tests
use cthulhu_os.Prelude.{
  ℕ, zero, suc, ◌+◌, ◌*◌, ◌/◌, ◌%◌, ◌^◌, Bool, true, false, ◌&&◌, Option, none, some, List, [], ◌∷◌,
  ltb, ◌==◌, if◌then◌else◌, u8, u32, u64, sub64,
}

abbrev pub Bytes : Type 0
Bytes = ℕ → ℕ

-- A little-endian field of `n` bytes.
abbrev pub read : Bytes → ℕ → ℕ → ℕ
read m a zero = 0
read m a (suc n) = m a + 256 * read m (suc a) n

abbrev pub sdt_length : Bytes → ℕ → ℕ
sdt_length m th = read m (th + 4) 4

unfoldable pub add_bytes : Bytes → ℕ → ℕ → ℕ → ℕ
add_bytes m addr zero v = v
add_bytes m addr (suc len) v = add_bytes m (suc addr) len ((v + m addr) % u64)

-- The loop of `acpisdt_checksum`, with `sum` an `unsigned char`.
unfoldable pub checksum_loop : Bytes → ℕ → ℕ → ℕ → ℕ
checksum_loop m th zero sum = sum
checksum_loop m th (suc length) sum = checksum_loop m (suc th) length ((sum + m th) % u8)

unfoldable pub acpisdt_checksum : Bytes → ℕ → Bool
unfolding checksum_loop
acpisdt_checksum m th = checksum_loop m th (sdt_length m th) 0 == 0

-- `strncmp(a, name, n) == 0` for a name of `n` characters without a zero.
abbrev pub is_named : Bytes → ℕ → List ℕ → Bool
is_named m a [] = true
is_named m a (c ∷ name) = m a == c && is_named m (suc a) name

-- `int entries = (Length - sizeof(header)) / width`: the difference is a `size_t`, and a negative
-- number of entries is a loop without a round.
unfoldable pub entry_count : ℕ → ℕ → ℕ
entry_count length width =
    let entries = sub64 length 36 / width % u32 in if ltb entries (2 ^ 31) then entries else 0

-- Where entry `i` of the array at `list` points to.
unfoldable pub entry_table : Bytes → (ℕ → ℕ) → ℕ → ℕ → ℕ → ℕ
entry_table m virtual list width i = virtual (read m (list + width * i) width)

unfoldable pub table_loop : Bytes → (ℕ → ℕ) → List ℕ → ℕ → ℕ → ℕ → ℕ → Option ℕ
unfolding entry_table acpisdt_checksum
table_loop m virtual name list width i zero = none
table_loop m virtual name list width i (suc entries) =
    let rest = table_loop m virtual name list width (suc i) entries in
    let h = entry_table m virtual list width i in
    if is_named m h name then (if acpisdt_checksum m h then some h else rest) else rest

-- The globals of acpi.c.
pub record Tables : Type 0 where
  pub rsdp_descriptor : Option ℕ
  pub rsdt : Option ℕ
  pub xsdt : Option ℕ
  pub fadt : Option ℕ
  pub acpi_version : ℕ

-- The entries of the XSDT are `uint64_t` in a structure that is not packed, so the compiler puts
-- `PointerToOtherSDT` at 40.
unfoldable pub find_table_general : Bytes → (ℕ → ℕ) → Tables → List ℕ → Option ℕ
unfolding table_loop entry_count
find_table_general m virtual s name = if s.acpi_version == 1 then by_rsdt s.rsdt else by_xsdt s.xsdt
  where
    by_rsdt : Option ℕ → Option ℕ
    by_rsdt none = none
    by_rsdt (some t) = table_loop m virtual name (t + 36) 4 0 (entry_count (sdt_length m t) 4)

    by_xsdt : Option ℕ → Option ℕ
    by_xsdt none = none
    by_xsdt (some t) = table_loop m virtual name (t + 40) 8 0 (entry_count (sdt_length m t) 8)

unfoldable pub check_lowestbyte : ℕ → Bool
check_lowestbyte value = value % u8 == 0

-- `valid_rsdp` sets `acpi_version` whatever it answers.
unfoldable pub rsdp_version : Bytes → ℕ → ℕ
rsdp_version m rsdp = (m (rsdp + 15) + 1) % u8

unfoldable pub valid_rsdp : Bytes → ℕ → Bool
unfolding rsdp_version check_lowestbyte add_bytes
valid_rsdp m rsdp =
    if rsdp_version m rsdp == 1
    then check_lowestbyte (add_bytes m rsdp 20 0)
    else check_lowestbyte (add_bytes m rsdp 36 0)

-- The characters of "RSD PTR ".
abbrev pub rsd_ptr : List ℕ
rsd_ptr = 0x52 ∷ 0x53 ∷ 0x44 ∷ 0x20 ∷ 0x50 ∷ 0x54 ∷ 0x52 ∷ 0x20 ∷ []

-- A loop of `find_rsdp` with `n` rounds to go, and the version before it and after it.
unfoldable pub rsdp_loop : Bytes → ℕ → ℕ → ℕ → Option ℕ × ℕ
unfolding valid_rsdp
rsdp_loop m addr zero version = (none, version)
rsdp_loop m addr (suc n) version =
    let next = rsdp_loop m (addr + 16) n version in
    let failed = rsdp_loop m (addr + 16) n (rsdp_version m addr) in
    if is_named m addr rsd_ptr
    then (if valid_rsdp m addr then (some addr, rsdp_version m addr) else failed)
    else next

-- 0x1000 / 16 rounds from `ebda` on, then those from 0xE0000 to 0xFFFFF.
unfoldable pub find_rsdp : Bytes → ℕ → ℕ → Option ℕ × ℕ
unfolding rsdp_loop
find_rsdp m ebda version = high (rsdp_loop m ebda 256 version)
  where
    high : Option ℕ × ℕ → Option ℕ × ℕ
    high (some a, v) = (some a, v)
    high (none, v) = rsdp_loop m 0xE0000 8192 v

-- How `init_table_acpi` ends: with the globals and `century_register`, or with a read through NULL.
pub data Init : Type 0 where
  ended : Tables → ℕ → Init
  fault : Init

-- The characters of "FACP" and of "MCFG".
abbrev pub facp : List ℕ
facp = 0x46 ∷ 0x41 ∷ 0x43 ∷ 0x50 ∷ []

abbrev pub mcfg : List ℕ
mcfg = 0x4D ∷ 0x43 ∷ 0x46 ∷ 0x47 ∷ []

-- The end of `init_table_acpi`: `valid_fadt` reads the table that was found, or NULL. `Century`
-- stands at 108.
unfoldable pub init_fadt : Bytes → (ℕ → ℕ) → Tables → ℕ → Init
unfolding find_table_general acpisdt_checksum
init_fadt m virtual s century = found (find_table_general m virtual s facp)
  where
    found : Option ℕ → Init
    found none = fault
    found (some t) =
        if acpisdt_checksum m t
        then ended (record s { fadt = some t }) (m (t + 108))
        else ended s century

unfoldable pub init_table_acpi : Bytes → (ℕ → ℕ) → ℕ → ℕ → Init
init_table_acpi m virtual ebda century = start (find_rsdp m ebda 0)
  where
    start : Option ℕ × ℕ → Init
    start (none, v) =
        ended
          record { rsdp_descriptor = none; rsdt = none; xsdt = none; fadt = none; acpi_version = v }
          century
    start (some d, v) =
        let s : Tables = record {
          rsdp_descriptor = some d;
          rsdt = none;
          xsdt = none;
          fadt = none;
          acpi_version = v;
        } in
        let r = virtual (read m (d + 16) 4) in
        let x = virtual (read m (d + 24) 8) in
        if v == 1
        then if acpisdt_checksum m r
          then init_fadt m virtual (record s { rsdt = some r }) century
          else ended s century
        else if acpisdt_checksum m x
        then init_fadt m virtual (record s { xsdt = some x }) century
        else ended s century

-- `while (bytes > 0)` in `get_pcie_numcount`; `none` is a loop that is not done after `fuel` rounds.
unfoldable pub count_loop : ℕ → ℕ → ℕ → Option ℕ
count_loop zero bytes num = none
count_loop (suc fuel) bytes num =
    let rest = count_loop fuel (sub64 bytes 16) (num + 1) in if bytes == 0 then some num else rest

-- `pci_bus_t`, the fields that `get_pcie_info` writes.
pub record PciBus : Type 0 where
  pub base_address : ℕ
  pub segment_group_num : ℕ
  pub start_pci_busnum : ℕ
  pub end_pci_busnum : ℕ

unfoldable pub pci_bus_at : Bytes → ℕ → PciBus
pci_bus_at m h = record {
  base_address = read m h 8;
  segment_group_num = read m (h + 8) 2;
  start_pci_busnum = m (h + 10);
  end_pci_busnum = m (h + 11);
}

-- The loop of `get_pcie_info`: what it stores in the array, in order.
unfoldable pub info_loop : Bytes → ℕ → ℕ → ℕ → Option (List PciBus)
unfolding pci_bus_at
info_loop m zero bytes addr = none
info_loop m (suc fuel) bytes addr =
    let rest = info_loop m fuel (sub64 bytes 16) (addr + 16) in
    if bytes == 0 then some [] else cons (pci_bus_at m addr) rest
  where
    cons : PciBus → Option (List PciBus) → Option (List PciBus)
    cons b none = none
    cons b (some bs) = some (b ∷ bs)

-- `none` is a call that does not return within `fuel` rounds; `some none` is the answer -1.
unfoldable pub get_pcie_numcount : Bytes → (ℕ → ℕ) → Tables → ℕ → Option (Option ℕ)
unfolding find_table_general count_loop
get_pcie_numcount m virtual s fuel = count (find_table_general m virtual s mcfg)
  where
    counted : Option ℕ → Option (Option ℕ)
    counted none = none
    counted (some n) = some (some n)

    count : Option ℕ → Option (Option ℕ)
    count none = some none
    count (some t) = counted (count_loop fuel (sub64 (sdt_length m t) 44) 0)

unfoldable pub get_pcie_info : Bytes → (ℕ → ℕ) → Tables → ℕ → Option (List PciBus)
unfolding find_table_general info_loop
get_pcie_info m virtual s fuel = info (find_table_general m virtual s mcfg)
  where
    info : Option ℕ → Option (List PciBus)
    info none = some []
    info (some t) = info_loop m fuel (sub64 (sdt_length m t) 44) (t + 44)
