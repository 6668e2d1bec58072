-- ===== src/Process/MemMap.antt =====
-- The memory map of a process (src/kernel/processes/process.c): the list `proc->mem_maps` of areas
-- in address order. A `mmap_area_t**`, the address of a link, is the position of that link; `malloc`
-- and the random generator are the C library's, so their answers are arguments.
pub mod Alloc
pub mod Order
mod Tests
pub mod Holes
pub mod Share
use cthulhu_os.Prelude.{
  ℕ, zero, suc, ◌-◌, ◌%◌, Bool, true, false, ◌&&◌, Option, none, some, List, [], ◌∷◌, ltb, leb,
  ◌==◌, if◌then◌else◌, add64, sub64, get_elem?, set,
}
use mathlib.Core.Option

-- `ma_type_t`
pub data AreaType : Type 0 where
  program_data stack_data heap_data nondealloc_map kernel_allocated_heap_data : AreaType

-- `mmap_area_t`; `next` is the rest of the list.
pub record Area : Type 0 where
  pub vastart : ℕ
  pub vaend : ℕ
  pub mtype : AreaType
  pub count : ℕ

-- What a search for a place returns: NULL, the link of the new area with the new map, or a fault (a
-- write through the NULL of a failed `malloc`, or a division by zero).
pub data Hole : Type 0 where
  null : Hole
  hole_at : ℕ → List Area → Hole
  fault : Hole

-- `ALIGN_DOWN` and `ALIGN_UP`
unfoldable pub align_down : ℕ → ℕ → ℕ
align_down a b = a - a % b

unfoldable pub align_up : ℕ → ℕ → ℕ
unfolding align_down
align_up a b = if a % b == 0 then a else add64 (align_down a b) b

-- The area that the code fills in after `memset`.
abbrev pub new_area : ℕ → ℕ → Area
new_area start end = record { vastart = start; vaend = end; mtype = program_data; count = 1 }

-- `newmm->next = *lm; *lm = newmm`
unfoldable pub insert_at : ℕ → Area → List Area → List Area
insert_at zero a ms = a ∷ ms
insert_at (suc i) a [] = a ∷ []
insert_at (suc i) a (m ∷ ms) = m ∷ insert_at i a ms

-- `mmap_area`: the link of the area that holds an address.
unfoldable pub mmap_area : List Area → ℕ → Option ℕ
mmap_area [] address = none
mmap_area (m ∷ ms) address =
    let rest = Option.map suc (mmap_area ms address) in
    if leb m.vaend address
    then rest
    else if leb address m.vaend && leb m.vastart address
    then some 0
    else none

-- The loop of `request_va_hole`: the link to insert at, or `none` at an overlap.
unfoldable pub request_loop : ℕ → ℕ → List Area → Option ℕ
request_loop start size [] = some 0
request_loop start size (m ∷ ms) =
    let rest = Option.map suc (request_loop start size ms) in
    if leb m.vaend start
    then rest
    else if leb start m.vaend && leb m.vastart (add64 start size)
    then none
    else some 0

-- Where the searches end: `malloc`, then the new area is linked in.
unfoldable pub link_area : Bool → ℕ → Area → List Area → Hole
unfolding insert_at
link_area malloc_ok i a ms = if malloc_ok then hole_at i (insert_at i a ms) else fault

-- What follows the loop of `request_va_hole`.
unfoldable pub place_area : Bool → Area → List Area → Option ℕ → Hole
unfolding link_area
place_area malloc_ok a ms none = null
place_area malloc_ok a ms (some i) = link_area malloc_ok i a ms

unfoldable pub request_va_hole : Bool → List Area → ℕ → ℕ → Hole
unfolding request_loop place_area
request_va_hole malloc_ok ms start size =
    if ltb start 0x1000
    then null
    else place_area malloc_ok (new_area start (add64 start size)) ms (request_loop start size ms)

-- The end of the user half of the address space.
abbrev pub user_end : ℕ
user_end = 0x800000000000

-- The loop of `find_va_hole` from `start_address`: the link, `start_address` and `hole` when it ends.
unfoldable pub find_loop : ℕ → ℕ → List Area → ℕ → ℕ × ℕ × ℕ
find_loop need start [] hole = (0, start, hole)
find_loop need start (m ∷ ms) hole =
    let gap = sub64 m.vastart start in
    let rest = find_loop need m.vaend ms (sub64 user_end m.vaend) in
    if leb need gap then (0, start, gap) else (suc rest.0, rest.1, rest.2)

-- The offset into the hole. `random d` is what `rg_next_uint_l(&proc->proc_random, d)` returns.
unfoldable pub hole_offset : (ℕ → ℕ) → ℕ → ℕ → ℕ → ℕ
unfolding align_down
hole_offset random size align hole =
    let diff = sub64 hole size in align_down (if diff == 0 then 0 else random diff) align

-- What follows the loop of `find_va_hole`.
unfoldable pub choose_place : Bool → (ℕ → ℕ) → List Area → ℕ → ℕ → ℕ × ℕ × ℕ → Hole
unfolding link_area align_up hole_offset
choose_place malloc_ok random ms size align (i, start, hole) =
    let start' = align_up start align in
    let offset = hole_offset random size align hole in
    let area = new_area (add64 start' offset) (add64 (add64 start' size) offset) in
    if align == 0 then fault else link_area malloc_ok i area ms

unfoldable pub find_va_hole : Bool → (ℕ → ℕ) → List Area → ℕ → ℕ → Hole
unfolding find_loop choose_place
find_va_hole malloc_ok random ms size align =
    choose_place malloc_ok random ms size align (find_loop (add64 size align) 0x1000 ms user_end)

-- `*pmma = mm->next`
unfoldable pub unlink : ℕ → List Area → List Area
unlink i [] = []
unlink zero (m ∷ ms) = ms
unlink (suc i) (m ∷ ms) = m ∷ unlink i ms

-- The `switch` of `free_mmap_area`: whether the area's pages are given back.
unfoldable pub is_deallocated : AreaType → Bool
is_deallocated program_data = true
is_deallocated stack_data = true
is_deallocated heap_data = true
is_deallocated kernel_allocated_heap_data = true
is_deallocated nondealloc_map = false

-- What the memory map asks of paging in the address space of the process: `allocate` and
-- `deallocate` of src/kernel/memory/paging.c for user pages that can be written.
pub record Paging : Type 1 where
  pub Mem : Type 0
  pub allocate : ℕ → ℕ → Mem → Bool × Mem
  pub deallocate : ℕ → ℕ → Mem → Mem

module _ (paging : Paging) where
  open paging use {Mem, allocate, deallocate}

  -- A map with the memory that it describes, and the areas that `free` has taken back.
  pub record Space : Type 0 where
    pub maps : List Area
    pub mem : Mem
    pub freed : List Area

  -- `free_mmap_area(mm, pmma, proc)` where `mm` is the area at the link `i`; `none` is a fault.
  free_area : ℕ → Area → Space → Space
  unfolding unlink is_deallocated
  free_area i mm s = record {
    maps = unlink i s.maps;
    mem =
        if is_deallocated mm.mtype
        then deallocate mm.vastart (sub64 mm.vaend mm.vastart) s.mem
        else s.mem;
    freed = if sub64 mm.count 1 == 0 then mm ∷ s.freed else s.freed;
  }

  pub free_mmap_area : ℕ → Space → Option Space
  unfolding free_area
  free_mmap_area i s = Option.map (λ mm. free_area i mm s) (get_elem? s.maps i)

  -- `none` is a fault: `mmap_area` returns NULL where no area holds the address, and `*_hole` reads it.
  pub proc_dealloc_direct : ℕ → Space → Option Space
  unfolding free_mmap_area mmap_area
  proc_dealloc_direct address s = Option.bind (mmap_area s.maps address) (λ i. free_mmap_area i s)

  -- The rest of `proc_alloc_direct`: the result of `allocate` is not looked at.
  take_hole : ℕ → Hole → Space → Option (ℕ × Space)
  take_hole size null s = none
  take_hole size fault s = none
  take_hole size (hole_at i ms) s =
      Option.map
        (λ a. (
          a.vastart,
          record s {
            maps = set ms i (record a { mtype = kernel_allocated_heap_data });
            mem = (allocate a.vastart size s.mem).1;
          },
        ))
        (get_elem? ms i)

  pub proc_alloc_direct : Bool → (ℕ → ℕ) → ℕ → Space → Option (ℕ × Space)
  unfolding take_hole find_va_hole
  proc_alloc_direct malloc_ok random size s =
      take_hole size (find_va_hole malloc_ok random s.maps size 0x1000) s

  -- `free_proc_memory` frees the first area until none is left.
  free_all : List Area → Space → Space
  unfolding free_area
  free_all [] s = s
  free_all (mm ∷ ms) s = free_all ms (free_area 0 mm s)

  pub free_proc_memory : Space → Space
  unfolding free_all
  free_proc_memory s = free_all s.maps s
