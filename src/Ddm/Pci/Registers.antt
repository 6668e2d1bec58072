-- ===== src/Ddm/Pci/Registers.antt =====
-- The registers of devices (src/ddm/pci.c): their addresses and the parts that are read.
use cthulhu_os.Prelude.{ℕ, ◌+◌, ◌-◌, ◌*◌, ◌/◌, ◌%◌, ◌^◌, ◌<◌, ◌≡◌, arith}
use cthulhu_os.Ddm.Pci.{
  bus_number, config_dword, rreg32, byte_offset, word_offset, config_read_byte, config_read_word,
  config_read_dword, read_header_0,
}

-- The address of a register, in a space that begins at a multiple of 2^28, gives back its bus, its
-- device, its function and its place, and is a multiple of 4.
pub config_dword-fields :
    (address bus device func ereg reg : ℕ)
    → bus < 256
    → device < 32
    → func < 8
    → ereg < 16
    → reg < 64
    → address % 2 ^ 28 ≡ 0
    → let a = config_dword address bus device func ereg reg in
      (a / 2 ^ 20 % 256 ≡ bus)
      × (a / 2 ^ 15 % 32 ≡ device)
      × (a / 2 ^ 12 % 8 ≡ func)
      × (a / 256 % 16 ≡ ereg)
      × (a / 4 % 64 ≡ reg)
      × (a % 4 ≡ 0)
      × (a - a % 2 ^ 28 ≡ address)
unfolding config_dword bus_number
config_dword-fields address bus device func ereg reg b d f e r h =
    (omega arith, omega arith, omega arith, omega arith, omega arith, omega arith, omega arith)

module _ (mem : ℕ → ℕ) (address bus device func ereg reg : ℕ) where
  -- The four bytes of a register of 32 bits, the highest at the offset 0, make up the register.
  pub config_read_byte-dword :
      config_read_dword mem address bus device func ereg reg < 2 ^ 32
      → config_read_byte mem address bus device func ereg reg 0 * 2 ^ 24
          + config_read_byte mem address bus device func ereg reg 1 * 2 ^ 16
          + config_read_byte mem address bus device func ereg reg 2 * 2 ^ 8
          + config_read_byte mem address bus device func ereg reg 3
        ≡ config_read_dword mem address bus device func ereg reg
  unfolding config_read_byte config_read_dword rreg32 byte_offset
  config_read_byte-dword h = omega arith

  -- The fields of the latencies and of the interrupt are not those that the names say: the byte of
  -- the interrupt line is written down as the minimal grant and the other way round, and the pointer
  -- to the capabilities is a byte of the reserved part.
  pub read_header_0-bytes :
      config_read_dword mem address bus device func 0 13 < 2 ^ 32
      → config_read_dword mem address bus device func 0 14 < 2 ^ 32
      → let h = read_header_0 mem address bus device func in
        (h.maxlat ≡ config_read_byte mem address bus device func 0 14 0)
        × (h.iline ≡ config_read_byte mem address bus device func 0 14 1)
        × (h.ipin ≡ config_read_byte mem address bus device func 0 14 2)
        × (h.mingrant ≡ config_read_byte mem address bus device func 0 14 3)
        × (h.cap_ptr ≡ config_read_byte mem address bus device func 0 13 1)
  unfolding read_header_0 config_read_word config_read_byte config_read_dword rreg32 byte_offset
      word_offset
  read_header_0-bytes h k = (omega arith, omega arith, omega arith, omega arith, omega arith)
