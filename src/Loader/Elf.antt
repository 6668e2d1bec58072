-- ===== src/Loader/Elf.antt =====
-- Loading a program (src/kernel/loader/elf.c): the header and the values of symbols; the sections are
-- in the child Sections. Reading the file is reading the structures at their
-- addresses; a read through NULL or a division by zero is a fault.
pub mod Header
pub mod Sections
pub mod Fixed
use cthulhu_os.Prelude.{
  ℕ, zero, suc, ◌+◌, ◌*◌, ◌/◌, ◌%◌, Bool, true, false, not, ◌&&◌, ◌||◌, Option, none, some, List,
  [], ◌∷◌, leb, ◌==◌, if◌then◌else◌, add64, sub64, get_elem?, length,
}
use cthulhu_os.Process.MemMap.{
  AreaType, program_data, stack_data, Area, Hole, null, hole_at, fault, request_va_hole,
  find_va_hole,
}
use mathlib.Core.Option

-- `Elf64_Ehdr`
pub record Elf64Ehdr : Type 0 where
  pub e_ident : ℕ → ℕ
  pub e_type : ℕ
  pub e_machine : ℕ
  pub e_version : ℕ
  pub e_entry : ℕ
  pub e_phoff : ℕ
  pub e_shoff : ℕ
  pub e_flags : ℕ
  pub e_ehsize : ℕ
  pub e_phentsize : ℕ
  pub e_phnum : ℕ
  pub e_shentsize : ℕ
  pub e_shnum : ℕ
  pub e_shstrndx : ℕ

-- `Elf64_Shdr`
pub record Elf64Shdr : Type 0 where
  pub sh_name : ℕ
  pub sh_type : ℕ
  pub sh_flags : ℕ
  pub sh_addr : ℕ
  pub sh_offset : ℕ
  pub sh_size : ℕ
  pub sh_link : ℕ
  pub sh_info : ℕ
  pub sh_addralign : ℕ
  pub sh_entsize : ℕ

-- `Elf64_Sym`
pub record Elf64Sym : Type 0 where
  pub st_name : ℕ
  pub st_info : ℕ
  pub st_other : ℕ
  pub st_shndx : ℕ
  pub st_value : ℕ
  pub st_size : ℕ

-- The results of the loader.
pub data ElfResult : Type 0 where
  elf_load_success elf_error_notclass64 elf_error_notdata2lsb elf_error_not_exec_exec_required :
      ElfResult
  elf_error_header_magic_incorrect elf_error_machine_invalid elf_error_version_not_current :
      ElfResult
  elf_error_reloc_error_sym_index_out_of_range elf_error_reloc_error_sym_external_not_found :
      ElfResult
  elf_error_section_overlaps elf_error_unsupported_section_type_fixaddr elf_error_enomem : ElfResult

unfoldable pub check_elf_header : Elf64Ehdr → ElfResult
check_elf_header h =
    if not (h.e_ident 0 == 0x7F)
    then elf_error_header_magic_incorrect
    else if not (h.e_ident 1 == 0x45)
    then elf_error_header_magic_incorrect
    else if not (h.e_ident 2 == 0x4C)
    then elf_error_header_magic_incorrect
    else if not (h.e_ident 3 == 0x46)
    then elf_error_header_magic_incorrect
    else if not (h.e_ident 4 == 2)
    then elf_error_notclass64
    else if not (h.e_ident 5 == 1)
    then elf_error_notdata2lsb
    else if not (h.e_machine == 62)
    then elf_error_machine_invalid
    else if not (h.e_version == 1)
    then elf_error_version_not_current
    else elf_load_success

-- The address of a section's header; a header has 64 bytes.
unfoldable pub elf_section : Elf64Ehdr → ℕ → ℕ → ℕ
elf_section h base idx = add64 (add64 base h.e_shoff) (idx * 64)

-- The address of a string of the file; 0 is NULL. `at` is the memory's section headers.
unfoldable pub elf_string : (ℕ → Elf64Shdr) → Elf64Ehdr → ℕ → ℕ → ℕ
unfolding elf_section
elf_string at h base offset =
    let table = add64 base (at (elf_section h base h.e_shstrndx)).sh_offset in
    if h.e_shstrndx == 0 then 0 else if table == 0 then 0 else add64 table offset

-- `elf_lookup_symbol`, which finds nothing yet.
unfoldable pub elf_lookup_symbol : ℕ → ℕ
elf_lookup_symbol name = 0

unfoldable pub external_symbol : ℕ → Elf64Sym → ℕ × Option ElfResult
unfolding elf_lookup_symbol
external_symbol name symbol =
    if elf_lookup_symbol name == 0
    then (if symbol.st_info / 16 / 2 % 2 == 1
        then (0, none)
        else (0, some elf_error_reloc_error_sym_external_not_found))
    else (elf_lookup_symbol name, none)

-- The value and what is written to `*error`, if anything; `none` is a division by zero. `at` and
-- `sym_at` are the section headers and the symbols in the memory, by their addresses.
unfoldable pub elf_symbol_value :
    (ℕ → Elf64Shdr) → (ℕ → Elf64Sym) → Elf64Ehdr → ℕ → ℕ → ℕ → Option (ℕ × Option ElfResult)
unfolding elf_section external_symbol
elf_symbol_value at sym_at h base table idx =
    let symbol_table = at (elf_section h base table) in
    let st_entries = symbol_table.sh_size / symbol_table.sh_entsize in
    let symbol = sym_at (add64 (add64 base symbol_table.sh_offset) (idx * 24)) in
    let string_tab = at (elf_section h base symbol_table.sh_link) in
    let name = add64 (add64 base string_tab.sh_offset) symbol.st_name in
    let target = at (elf_section h base symbol.st_shndx) in
    if table == 0 || idx == 0
    then some (0, none)
    else if symbol_table.sh_entsize == 0
    then none
    else if leb st_entries idx
    then some (0, some elf_error_reloc_error_sym_index_out_of_range)
    else if symbol.st_shndx == 0
    then some (external_symbol name symbol)
    else if symbol.st_shndx == 0xFFF1
    then some (symbol.st_value, none)
    else some (add64 (add64 base symbol.st_value) target.sh_offset, none)
