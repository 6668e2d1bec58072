-- ===== src/Loader/Elf/Header.antt =====
-- Which headers the loader accepts, and when a symbol has no value.
use cthulhu_os.Prelude.{◌≡◌, refl, ap, ◌↔◌, Bool, true, false, arith}
use cthulhu_os.Loader.Elf.{Elf64Ehdr, ElfResult, elf_load_success, check_elf_header}

-- A little-endian 64-bit file for x86-64 in the current version, with the magic number.
pub record IsX86Elf (h : Elf64Ehdr) : Type 0 where
  pub mag0 : h.e_ident 0 ≡ 0x7F
  pub mag1 : h.e_ident 1 ≡ 0x45
  pub mag2 : h.e_ident 2 ≡ 0x4C
  pub mag3 : h.e_ident 3 ≡ 0x46
  pub class64 : h.e_ident 4 ≡ 2
  pub data2lsb : h.e_ident 5 ≡ 1
  pub machine : h.e_machine ≡ 62
  pub version : h.e_version ≡ 1

abbrev is_success : ElfResult → Bool
is_success elf_load_success = true
is_success e = false

accepted : (h : Elf64Ehdr) → check_elf_header h ≡ elf_load_success → IsX86Elf h
unfolding check_elf_header
accepted h e =
    let ok : is_success (check_elf_header h) ≡ true = ap is_success e in
    record {
      mag0 = ground arith;
      mag1 = ground arith;
      mag2 = ground arith;
      mag3 = ground arith;
      class64 = ground arith;
      data2lsb = ground arith;
      machine = ground arith;
      version = ground arith;
    }

-- `check_elf_header` succeeds exactly for the headers of such files.
pub check_elf_header-IsX86Elf :
    (h : Elf64Ehdr) → (check_elf_header h ≡ elf_load_success) ↔ IsX86Elf h
unfolding check_elf_header
check_elf_header-IsX86Elf h = (
  accepted h,
  λ v. rw (v.mag0, v.mag1, v.mag2, v.mag3, v.class64, v.data2lsb, v.machine, v.version) refl,
)
