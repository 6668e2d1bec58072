-- ===== src/Loader/Elf/Sections.antt =====
-- The sections of a program (src/kernel/loader/elf.c): they get areas of the process' memory map, and
-- the first thread its stack. A read through NULL is a crash.
use cthulhu_os.Prelude.{
  ℕ, zero, suc, ◌+◌, ◌/◌, ◌%◌, Bool, true, false, not, ◌&&◌, ◌||◌, Option, none, some, List, [],
  ◌∷◌, ◌==◌, if◌then◌else◌, add64, sub64, get_elem?, length,
}
use cthulhu_os.Process.MemMap.{
  AreaType, program_data, stack_data, Area, Hole, null, hole_at, fault, request_va_hole,
  find_va_hole,
}
use cthulhu_os.Loader.Elf.{
  Elf64Ehdr, Elf64Shdr, ElfResult, elf_load_success, elf_error_enomem,
  elf_error_not_exec_exec_required, elf_error_unsupported_section_type_fixaddr, check_elf_header,
}

-- What the loader asks of paging, in the address space of the process: `allocate` for user pages
-- that can be written, `memset_dpgs`, `memcpy_dpgs` from the active address space, and
-- `mem_change_type` of `CHNG_TYPE_RW`.
pub record Loading : Type 1 where
  pub Mem : Type 0
  pub allocate : ℕ → ℕ → Mem → Bool × Mem
  pub memset_dpgs : ℕ → ℕ → ℕ → Mem → Mem
  pub memcpy_dpgs : ℕ → ℕ → ℕ → Mem → Mem
  pub mem_change_type : ℕ → ℕ → Bool → Mem → Mem

-- `mmap_area->mtype = t` at a link.
unfoldable pub set_type : ℕ → AreaType → List Area → List Area
set_type i t [] = []
set_type zero t (m ∷ ms) = (record m { mtype = t }) ∷ ms
set_type (suc i) t (m ∷ ms) = m ∷ set_type i t ms

-- Whether a loop of `load_elf_stage_one` passes a section over.
unfoldable pub passed : Bool → Elf64Shdr → Bool
passed moved sec =
    sec.sh_type == 0
    || not (sec.sh_flags / 2 % 2 == 1)
    || (if moved then not (sec.sh_addr == 0) else sec.sh_addr == 0)
    || sec.sh_size == 0

module _ (loading : Loading) where
  open loading use {Mem, allocate, memset_dpgs, memcpy_dpgs, mem_change_type}

  -- The memory map and the memory of the process.
  pub record Image : Type 0 where
    pub maps : List Area
    pub mem : Mem

  -- What becomes of one section, or of the rest of them.
  pub data Step (A : Type 0) : Type 0 where
    next : A → Image → Step A
    stop : ElfResult → Image → Step A
    crash : Step A

  unfoldable pub after : {A B : Type 0} → Step A → (A → Image → Step B) → Step B
  after (next a s) k = k a s
  after (stop e s) k = stop e s
  after crash k = crash

  -- The pages of a section's area are allocated and filled. `moved` is the second loop, which
  -- writes the place of a section with contents into its header.
  unfoldable pub fill_area : Bool → ℕ → Elf64Shdr → Area → Image → Step Elf64Shdr
  fill_area moved base sec area s =
      let size = sub64 area.vaend area.vastart in
      let r = allocate area.vastart size s.mem in
      let zeroed : Image = record s { mem = memset_dpgs area.vastart 0 size r.1 } in
      let copied : Image = record s {
        mem = memcpy_dpgs area.vastart (add64 base sec.sh_offset) size r.1;
      } in
      let here : Image = record s { mem = r.1 } in
      if not r.0
      then stop elf_error_enomem here
      else if sec.sh_type == 8
      then next (record sec { sh_offset = sub64 base area.vastart }) zeroed
      else if sec.sh_type == 1
      then next (if moved then record sec { sh_addr = area.vastart } else sec) copied
      else stop elf_error_unsupported_section_type_fixaddr here

  unfoldable pub fill_link : Bool → ℕ → Elf64Shdr → Option Area → Image → Step Elf64Shdr
  unfolding fill_area
  fill_link moved base sec none s = crash
  fill_link moved base sec (some area) s = fill_area moved base sec area s

  -- The NULL of a search is read before it is tested.
  unfoldable pub fill_hole : Bool → ℕ → Elf64Shdr → Hole → Image → Step Elf64Shdr
  unfolding fill_link set_type
  fill_hole moved base sec null s = crash
  fill_hole moved base sec fault s = crash
  fill_hole moved base sec (hole_at i maps') s =
      let maps'' = set_type i program_data maps' in
      fill_link moved base sec (get_elem? maps'' i) (record s { maps = maps'' })

  -- A round of the first loop, for a section with a fixed address. `malloc_ok` tells whether the
  -- call of `malloc` for the area succeeds.
  unfoldable pub fixed_section : Bool → ℕ → Elf64Shdr → Image → Step Elf64Shdr
  unfolding passed fill_hole
  fixed_section malloc_ok base sec s =
      if passed false sec
      then next sec s
      else fill_hole false base sec (request_va_hole malloc_ok s.maps sec.sh_addr sec.sh_size) s

  -- A round of the second loop, for a section that may stand anywhere.
  unfoldable pub moved_section : Bool → (ℕ → ℕ) → ℕ → Elf64Shdr → Image → Step Elf64Shdr
  unfolding passed fill_hole
  moved_section malloc_ok random base sec s =
      if passed true sec
      then next sec s
      else fill_hole true base sec
          (find_va_hole malloc_ok random s.maps sec.sh_size sec.sh_addralign) s

  -- `malloc_ok n` tells whether the `n`-th call of `malloc` from here on succeeds, and `random n` is
  -- what the random generator answers then.
  unfoldable pub fixed_loop : (ℕ → Bool) → ℕ → List Elf64Shdr → Image → Step (List Elf64Shdr)
  unfolding fixed_section after
  fixed_loop malloc_ok base [] s = next [] s
  fixed_loop malloc_ok base (sec ∷ secs) s =
      after (fixed_section (malloc_ok 0) base sec s) (λ sec' s'.
        after (fixed_loop (λ n. malloc_ok (suc n)) base secs s')
          (λ secs' s''. next (sec' ∷ secs') s''))

  unfoldable pub moved_loop :
      (ℕ → Bool) → (ℕ → ℕ → ℕ) → ℕ → List Elf64Shdr → Image → Step (List Elf64Shdr)
  unfolding moved_section after
  moved_loop malloc_ok random base [] s = next [] s
  moved_loop malloc_ok random base (sec ∷ secs) s =
      after (moved_section (malloc_ok 0) (random 0) base sec s) (λ sec' s'.
        after (moved_loop (λ n. malloc_ok (suc n)) (λ n. random (suc n)) base secs s')
          (λ secs' s''. next (sec' ∷ secs') s''))

  unfoldable pub load_elf_stage_one :
      (ℕ → Bool) → (ℕ → ℕ → ℕ) → ℕ → List Elf64Shdr → Image → Step (List Elf64Shdr)
  unfolding fixed_loop moved_loop after
  load_elf_stage_one malloc_ok random base secs s =
      after (fixed_loop malloc_ok base secs s) (λ secs' s'.
        moved_loop (λ n. malloc_ok (length secs + n)) (λ n. random (length secs + n)) base secs' s')

  -- Sections that must not be written to lose the right.
  unfoldable pub load_elf_stage_two : List Elf64Shdr → Image → Image
  load_elf_stage_two [] s = s
  load_elf_stage_two (sec ∷ secs) s =
      let protected : Image = record s {
        mem = mem_change_type sec.sh_addr sec.sh_size false s.mem;
      } in
      let readonly =
        not (sec.sh_type == 0)
        && sec.sh_flags / 2 % 2 == 1
        && not (sec.sh_addr == 0)
        && sec.sh_flags % 2 == 0 in
      load_elf_stage_two secs (if readonly then protected else s)

  -- The fields of the first thread that the loader sets.
  pub record Start : Type 0 where
    pub last_rip : ℕ
    pub last_rsp : ℕ
    pub stack_bottom_address : ℕ
    pub stack_top_address : ℕ

  unfoldable pub stack_area : ℕ → Option Area → Image → Step Start
  stack_area entry none s = crash
  stack_area entry (some area) s =
      let r = allocate area.vastart 0x1000000 s.mem in
      let here : Image = record s { mem = r.1 } in
      let zeroed : Image = record s { mem = memset_dpgs area.vastart 0 0x1000000 r.1 } in
      let start : Start = record {
        last_rip = entry;
        last_rsp = area.vaend;
        stack_bottom_address = area.vastart;
        stack_top_address = area.vaend;
      } in
      if r.0 then next start zeroed else stop elf_error_enomem here

  unfoldable pub make_stack : ℕ → Hole → Image → Step Start
  unfolding stack_area set_type
  make_stack entry null s = crash
  make_stack entry fault s = crash
  make_stack entry (hole_at i maps') s =
      let maps'' = set_type i stack_data maps' in
      stack_area entry (get_elem? maps'' i) (record s { maps = maps'' })

  unfoldable pub if_valid : ElfResult → Image → Step Start → Step Start
  if_valid elf_load_success s loaded = loaded
  if_valid e s loaded = stop e s

  -- `load_elf_exec` and `load_elf_general`; `next` is the success.
  unfoldable pub load_elf_exec :
      (ℕ → Bool) → (ℕ → ℕ → ℕ) → ℕ → Elf64Ehdr → List Elf64Shdr → Image → Step Start
  unfolding check_elf_header load_elf_stage_one load_elf_stage_two make_stack after if_valid
  load_elf_exec malloc_ok random base h secs s =
      let calls = length secs + length secs in
      let loaded = after (load_elf_stage_one malloc_ok random base secs s) (λ secs' s'.
        let s'' = load_elf_stage_two secs' s' in
        make_stack h.e_entry
          (find_va_hole (malloc_ok calls) (random calls) s''.maps 0x1000000 0x1000) s'') in
      if_valid (check_elf_header h) s
        (if h.e_type == 2 then loaded else stop elf_error_not_exec_exec_required s)
