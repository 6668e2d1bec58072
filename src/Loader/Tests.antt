-- ===== src/Loader/Tests.antt =====
-- Loading a program of one section at a fixed address.
use cthulhu_os.Prelude.{ℕ, ◌≡◌, ◌↔◌, true, [], suc}
use cthulhu_os.Loader.Elf.{Elf64Ehdr, Elf64Shdr, elf_load_success, check_elf_header}
use cthulhu_os.Loader.Elf.Sections.{Loading, Image}
use cthulhu_os.Loader.Elf.Header.{IsX86Elf, check_elf_header-IsX86Elf}
use cthulhu_os.Loader.Elf.Fixed.{Fixed}

-- A file whose machine is another one.
abbrev other_machine : Elf64Ehdr
other_machine = record {
  e_ident = λ i. 0x7F;
  e_type = 2;
  e_machine = 3;
  e_version = 1;
  e_entry = 0x400000;
  e_phoff = 0;
  e_shoff = 64;
  e_flags = 0;
  e_ehsize = 64;
  e_phentsize = 0;
  e_phnum = 0;
  e_shentsize = 64;
  e_shnum = 1;
  e_shstrndx = 0;
}

check_elf_header_run : (check_elf_header other_machine ≡ elf_load_success) ↔ IsX86Elf other_machine
check_elf_header_run = check_elf_header-IsX86Elf other_machine

-- A memory that counts the operations on it.
abbrev counting : Loading
counting = record {
  Mem = ℕ;
  allocate = λ from amount m. (true, suc m);
  memset_dpgs = λ from v n m. suc m;
  memcpy_dpgs = λ to from n m. suc m;
  mem_change_type = λ start len v m. suc m;
}

abbrev text : Elf64Shdr
text = record {
  sh_name = 1;
  sh_type = 1;
  sh_flags = 6;
  sh_addr = 0x400000;
  sh_offset = 0x1000;
  sh_size = 0x2000;
  sh_link = 0;
  sh_info = 0;
  sh_addralign = 16;
  sh_entsize = 0;
}

abbrev empty_image : Image counting
empty_image = record { maps = []; mem = 0 }
