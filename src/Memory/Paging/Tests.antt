-- ===== src/Memory/Paging/Tests.antt =====
-- The page tables on an empty table of the first level and five free frames at 2 MB.
use cthulhu_os.Prelude.{
  ℕ, ◌+◌, ◌*◌, ◌/◌, ◌%◌, ◌≤◌, ◌<◌, ◌≡◌, refl, ◌≢◌, true, false, some, none, List, [], ◌∷◌, arith,
  ◌==◌, if◌then◌else◌, All,
}
use cthulhu_os.Memory.Frames.{Section, align, make_pool, make_head, count_frames, first_frame}
use cthulhu_os.Memory.Frames.Pool.{free_frames, IsPool}
use cthulhu_os.Memory.Frames.Make.{make_pool-IsSection}
use cthulhu_os.Memory.Paging.{
  Memory, present, bit, page, get_page, walk, descend, onward, entry_at, allocated, allocate, path,
}
use cthulhu_os.Memory.Paging.Entry.{page_number}
use cthulhu_os.Memory.Paging.Walk.{Owners, Down, size}
use cthulhu_os.Memory.Paging.Tree.{Tables}
use cthulhu_os.Memory.Paging.Range.{allocate-backs, allocate-succeeds}
use cthulhu_os.Memory.Paging.Translate.{virtual_to_physical, virtual_to_physical-fails}
use cthulhu_os.Memory.Paging.Sections.{sections}

abbrev five_frames : List Section
five_frames = make_pool (λ i. 0) 24864 0x200000 ∷ []

abbrev empty_memory : Memory sections
empty_memory = record { words = λ t i. 0; frames = five_frames }

abbrev only_root : Owners
only_root x = if x == 0x1000 then some (3, []) else none

empty-Down : Down only_root empty_memory.words
unfolding present bit
empty-Down x y k p o h = absurd (ground arith)

five_frames-spare : All (λ f. only_root f ≡ none) (free_frames five_frames)
unfolding make_pool make_head count_frames first_frame
five_frames-spare = (refl, (refl, (refl, (refl, (refl, tt)))))

five_frames-IsPool : IsPool five_frames
five_frames-IsPool = (
  (make_pool-IsSection (λ i. 0) 24864 0x200000 (omega arith) (omega arith) (omega arith)).0,
  tt,
  tt,
)

empty-Tables : Tables sections (align 0x1000) only_root empty_memory
unfolding align
empty-Tables = record {
  root = refl;
  down = empty-Down;
  valid = five_frames-IsPool;
  spare = five_frames-spare;
}

nothing_allocated : (v : ℕ) → allocated sections v 0x1000 empty_memory ≡ false
unfolding allocated page get_page walk onward descend entry_at present bit path
nothing_allocated v = refl

five : 4 * ((1 + 0x400005 % 0x1000 + 0xFFF) / 0x1000) ≤ size (free_frames five_frames)
unfolding make_pool make_head count_frames first_frame
five = omega arith

allocate-succeeds_example :
    (allocate sections true 0x400005 1 false false 0x1000 empty_memory).0 ≡ true
allocate-succeeds_example =
    allocate-succeeds sections 0x1000 only_root true false false 0x400005 1 empty_memory
      (omega arith) (omega arith) (omega arith) empty-Tables (λ v lo hi. nothing_allocated v) five

allocate-backs_example :
    (let after = (allocate sections true 0x400005 1 false false 0x1000 empty_memory).1 in
      ((v : ℕ) → 0x400005 ≤ v → v < 0x400005 + 1 → allocated sections v 0x1000 after ≡ true)
      × ((v : ℕ)
          → ((w : ℕ) → 0x400005 ≤ w → w < 0x400005 + 1 → page_number v ≢ page_number w)
          → page sections v 0x1000 after ≡ page sections v 0x1000 empty_memory)
      × (own' : Owners) × Tables sections (align 0x1000) own' after)
allocate-backs_example =
    allocate-backs sections 0x1000 only_root true false false 0x400005 1 empty_memory (omega arith)
      (omega arith) (omega arith) empty-Tables
      (allocate-succeeds sections 0x1000 only_root true false false 0x400005 1 empty_memory
        (omega arith) (omega arith) (omega arith) empty-Tables (λ v lo hi. nothing_allocated v)
        five)

virtual_to_physical-fails_run :
    virtual_to_physical sections true 0x400005 0x1000 empty_memory ≡ (0, false)
virtual_to_physical-fails_run = virtual_to_physical-fails sections true 0x400005 0x1000 empty_memory
