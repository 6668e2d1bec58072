-- ===== src/Process/MemMap/Share.antt =====
-- Memory that is seen at a second place (src/kernel/processes/process.c: `map_virtual_virtual`,
-- `map_physical_virtual`). `map_range` of paging is an interface.
use cthulhu_os.Prelude.{
  ℕ, ◌+◌, ◌%◌, ◌≤◌, ◌≡◌, Bool, true, false, Option, none, some, List, ◌∷◌, sub64, get_elem?, set,
  length, if◌then◌else◌,
}
use cthulhu_os.Process.MemMap.{
  Area, kernel_allocated_heap_data, Hole, null, fault, hole_at, insert_at, align_down, align_up,
  find_va_hole, Paging, Space, free_mmap_area, free_area,
}
use cthulhu_os.Process.MemMap.Alloc.{get_elem?-insert_at, set-insert_at, unlink-insert_at}
use mathlib.Core.Option

module _ (paging : Paging)
    (map_range : Bool → Bool → ℕ → ℕ → ℕ → ℕ → paging.Mem → Option (Bool × ℕ × paging.Mem)) where
  -- The answer, what `*_vastart` holds afterwards, and the process; `none` is a fault.
  abbrev pub Shared : Type 0
  Shared = Option (ℕ × ℕ × Space paging)

  -- What follows `map_range` at the area `a` of the link `i`. On an error `map_physical_virtual`
  -- writes the aligned address back, `map_virtual_virtual` leaves what `map_range` wrote.
  unfoldable pub share_ended :
      Bool → ℕ → ℕ → Area → List Area → Space paging → Option (Bool × ℕ × paging.Mem) → Shared
  share_ended virtual_memory start i a ms s none = none
  share_ended virtual_memory start i a ms s (some (true, start', mem)) =
      some (a.vastart + start % 0x1000, start', record s { maps = ms; mem = mem })
  share_ended virtual_memory start i a ms s (some (false, start', mem)) =
      Option.map (λ s'. (0, (if virtual_memory then start' else align_down start 0x1000), s'))
        (free_mmap_area paging i (record s { maps = ms; mem = mem }))

  unfoldable pub share_area :
      Bool → Bool → ℕ → ℕ → ℕ → List Area → Space paging → Option Area → Shared
  unfolding share_ended
  share_area virtual_memory readonly start end i ms s none = none
  share_area virtual_memory readonly start end i ms s (some a) =
      let a' : Area = record a { mtype = kernel_allocated_heap_data } in
      share_ended virtual_memory start i a' (set ms i a') s
        (map_range virtual_memory readonly start end a.vastart a.vaend s.mem)

  unfoldable pub share_hole : Bool → Bool → ℕ → ℕ → Space paging → Hole → Shared
  unfolding share_area
  share_hole virtual_memory readonly start end s null = none
  share_hole virtual_memory readonly start end s fault = none
  share_hole virtual_memory readonly start end s (hole_at i ms) =
      share_area virtual_memory readonly start end i ms s (get_elem? ms i)

  -- `map_virtual_virtual`, and `map_physical_virtual` where `virtual_memory` is false. `map_range`
  -- gets the start as the caller wrote it, without the alignment.
  unfoldable pub map_memory : Bool → (ℕ → ℕ) → Bool → Bool → ℕ → ℕ → Space paging → Shared
  unfolding share_hole align_down align_up find_va_hole
  map_memory malloc_ok random virtual_memory readonly start end s =
      let start' = align_down start 0x1000 in
      let end' = align_up end 0x1000 in
      share_hole virtual_memory readonly start end' s
        (find_va_hole malloc_ok random s.maps (sub64 end' start') 0x1000)

  -- If the search links a new area into the map and `map_range` answers an error, the map is what it
  -- was, the area's pages go to `deallocate`, and the answer is 0.
  pub share_hole-undone :
      (virtual_memory readonly : Bool) (start end i start' : ℕ) (a : Area) (s : Space paging)
      (mem : paging.Mem)
      → i ≤ length s.maps
      → map_range virtual_memory readonly start end a.vastart a.vaend s.mem
        ≡ some (false, start', mem)
      → a.count ≡ 1
      → share_hole virtual_memory readonly start end s (hole_at i (insert_at i a s.maps))
        ≡ some (
          0,
          (if virtual_memory then start' else align_down start 0x1000),
          record {
            maps = s.maps;
            mem = paging.deallocate a.vastart (sub64 a.vaend a.vastart) mem;
            freed = record a { mtype = kernel_allocated_heap_data } ∷ s.freed;
          },
        )
  unfolding share_hole free_mmap_area free_area
  share_hole-undone virtual_memory readonly start end i start' a s mem h e c =
      let a' : Area = record a { mtype = kernel_allocated_heap_data } in
      rw (
        get_elem?-insert_at i a s.maps h,
        e,
        set-insert_at i a a' s.maps h,
        get_elem?-insert_at i a' s.maps h,
        unlink-insert_at i a' s.maps h,
        c,
      )
