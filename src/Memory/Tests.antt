-- ===== src/Memory/Tests.antt =====
-- The frame pool on two frames behind a section's records at 2 MB.
use cthulhu_os.Prelude.{ℕ, ◌+◌, ◌*◌, ◌≤◌, ◌<◌, ◌≡◌, refl, ◌≢◌, true, some, List, [], ◌∷◌, arith}
use cthulhu_os.Memory.Frames.{
  FrameInfo, Section, get_free_frame, free_frame, get_frame_info, make_pool, count_frames,
  make_head, first_frame,
}
use cthulhu_os.Memory.Frames.Free.{IsSection}
use cthulhu_os.Memory.Frames.Pool.{
  IsPool, free_frames, first_or_zero, rest_of, Owns, here, get_frame_info-Owns,
}
use cthulhu_os.Memory.Frames.Make.{IsIn, make_pool-IsSection}
use cthulhu_os.Memory.Frames.Serve.{get_free_frame-first, free_frame-get_free_frame}
use mathlib.Core.List.{Perm}

abbrev two_frames : Section
two_frames = make_pool (λ i. 0) 12456 0x200000

abbrev pool : List Section
pool = two_frames ∷ []

make_pool-IsSection_example :
    IsSection two_frames
    × (0x200000 + 48 + count_frames 12456 * 40 ≤ two_frames.start_word)
    × ((j : ℕ)
        → j < count_frames 12456
        → 0x200000 ≤ two_frames.start_word + j * 0x1000
        → IsIn j two_frames.head)
    × ((j : ℕ) → IsIn j two_frames.head → 0x200000 ≤ two_frames.start_word + j * 0x1000)
make_pool-IsSection_example =
    make_pool-IsSection (λ i. 0) 12456 0x200000 (omega arith) (omega arith) (omega arith)

pool-IsPool : IsPool pool
pool-IsPool = (make_pool-IsSection_example.0, tt, tt)

free_frames-pool : free_frames pool ≡ 0x201000 ∷ 0x202000 ∷ []
unfolding make_pool make_head count_frames first_frame
free_frames-pool = refl

pool-has_free : free_frames pool ≢ []
unfolding make_pool make_head count_frames first_frame
pool-has_free = λ e. ground arith

pool-nonempty : pool ≢ []
pool-nonempty = λ e. ground arith

get_free_frame-first_run :
    (after : List Section) × (get_free_frame 0 0 pool
      ≡ some (first_or_zero (free_frames pool), after, 0))
    × (free_frames after ≡ rest_of (free_frames pool))
    × IsPool after
    × (free_frames pool ≢ []
        → (fi : FrameInfo) × (fi.usage_count ≡ 1)
          × Owns (first_or_zero (free_frames pool)) fi after)
get_free_frame-first_run = get_free_frame-first 0 0 pool pool-nonempty pool-IsPool

free_frame-get_free_frame_example :
    (frame : ℕ) × (taken : List Section) × (back : List Section) × (get_free_frame 0 0 pool
      ≡ some (frame, taken, 0))
    × (free_frame frame taken ≡ some (true, back))
    × IsPool back
    × Perm (free_frames back) (free_frames pool)
free_frame-get_free_frame_example =
    free_frame-get_free_frame 0 0 pool pool-nonempty pool-IsPool pool-has_free

abbrev shared_info : FrameInfo
shared_info = record { usage_count = 2; cow_count = 1; bound_stack_element = 0 }

-- A section whose only frame has two uses, one of them copy on write.
abbrev shared_section : Section
shared_section = record {
  head = [];
  elements = (record { frame_address = 0x400000; array_ord = 0 }) ∷ [];
  frame_array = shared_info ∷ [];
  start_word = 0x400000;
  end_word = 0x401000;
  total_frames = 1;
}

shared-IsPool : IsPool (shared_section ∷ [])
shared-IsPool = (
  record {
    aligned = refl;
    positive = omega arith;
    room = omega arith;
    small = omega arith;
    few = omega arith;
    free = tt;
  },
  tt,
  tt,
)

shared-Owns : Owns 0x400000 shared_info (shared_section ∷ [])
shared-Owns =
    here 0 (record { inside = omega arith; element = refl; info = refl; bound = refl }) refl

get_frame_info_run : get_frame_info 0x400000 (shared_section ∷ []) ≡ some shared_info
get_frame_info_run =
    get_frame_info-Owns 0x400000 shared_info (shared_section ∷ []) shared-IsPool shared-Owns
