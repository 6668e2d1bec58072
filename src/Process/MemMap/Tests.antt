-- ===== src/Process/MemMap/Tests.antt =====
-- Runs of the memory map, and its theorems at a map of two areas.
use cthulhu_os.Prelude.{ℕ, ◌-◌, ◌<◌, ◌≡◌, refl, true, List, [], ◌∷◌, arith}
use cthulhu_os.Process.MemMap.{
  Area, nondealloc_map, hole_at, null, new_area, insert_at, mmap_area, request_va_hole, find_loop,
  find_va_hole, Paging, Space, proc_alloc_direct, free_proc_memory,
}
use cthulhu_os.Process.MemMap.Order.{IsMap, Granted, request_va_hole-Granted}
use cthulhu_os.Process.MemMap.Alloc.{
  Located, mmap_area-Located, Allocated, proc_alloc_direct-Allocated, give_back,
  free_proc_memory-give_back,
}

abbrev two_areas : List Area
two_areas = new_area 0x1000 0x3000 ∷ record (new_area 0x8000 0x9000) { mtype = nondealloc_map } ∷ []

two_areas-IsMap : IsMap 0x1000 two_areas
two_areas-IsMap = omega arith

-- The least and the greatest answer of a generator.
abbrev least : ℕ → ℕ
least d = 0

abbrev greatest : ℕ → ℕ
greatest d = d - 1

greatest-lt : (d : ℕ) → 0 < d → greatest d < d
greatest-lt d h = omega arith

-- An area must leave a byte free before the next one.
request_next_to : request_va_hole true two_areas 0x7000 0x1000 ≡ null
unfolding request_va_hole
request_next_to = refl

find_between :
    find_va_hole true greatest two_areas 0x1000 0x1000
    ≡ hole_at 1 (insert_at 1 (new_area 0x6000 0x7000) two_areas)
unfolding find_va_hole insert_at
find_between = refl

-- Behind an area that ends inside a page, the place found runs into the next area.
find_overlap :
    find_va_hole true greatest (new_area 0x1000 0x3001 ∷ new_area 0x8000 0x9000 ∷ []) 0x1fff 0x1000
    ≡ hole_at 1 (new_area 0x1000 0x3001 ∷ new_area 0x6000 0x7fff ∷ new_area 0x8000 0x9000 ∷ [])
unfolding find_va_hole insert_at
find_overlap = refl

request_va_hole-Granted_example :
    Granted 0x4000 0x1000 two_areas (request_va_hole true two_areas 0x4000 0x1000)
request_va_hole-Granted_example =
    request_va_hole-Granted two_areas 0x4000 0x1000 two_areas-IsMap (omega arith)

mmap_area-Located_example : Located 0x8000 two_areas (mmap_area two_areas 0x8000)
mmap_area-Located_example = mmap_area-Located 0x1000 two_areas 0x8000 two_areas-IsMap

-- Paging that notes the calls made of it.
data Call : Type 0 where
  took gave : ℕ → ℕ → Call

abbrev noting : Paging
noting = record {
  Mem = List Call;
  allocate = λ a n calls. (true, took a n ∷ calls);
  deallocate = λ a n calls. gave a n ∷ calls;
}

abbrev space : Space noting
space = record { maps = two_areas; mem = []; freed = [] }

proc_alloc_direct-Allocated_example :
    Allocated noting 0x800 space (proc_alloc_direct noting true greatest 0x800 space)
unfolding find_loop
proc_alloc_direct-Allocated_example =
    proc_alloc_direct-Allocated noting greatest 0x800 space greatest-lt two_areas-IsMap
      (omega arith) (omega arith) (omega arith) (omega arith) (omega arith)

free_proc_memory-give_back_run :
    ((free_proc_memory noting space).maps ≡ [])
    × ((free_proc_memory noting space).mem ≡ give_back noting two_areas [])
free_proc_memory-give_back_run = free_proc_memory-give_back noting space
