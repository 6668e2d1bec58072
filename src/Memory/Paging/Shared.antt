-- ===== src/Memory/Paging/Shared.antt =====
-- Frames that several pages share (src/kernel/memory/paging.c: `map_range`, `page_fault`). `none` is
-- a fault: a read through the NULL of `get_page`.
use cthulhu_os.Prelude.{
  ℕ, zero, suc, ◌+◌, ◌-◌, ◌/◌, ◌%◌, ◌≡◌, ◌≢◌, Bool, true, false, not, ◌&&◌, Option, none, some,
  ◌==◌, if◌then◌else◌, add64, sub64,
}
use cthulhu_os.Memory.Frames.{align}
use cthulhu_os.Memory.Paging.{FramePool, Memory, bit, set_bit, set_word, table, get_page, Words}
use cthulhu_os.Memory.Paging.Demand.{AllocInfo, allocate_mem}

-- What sharing needs of the frame pool beside `FramePool`: `get_frame_info` of a frame, by its
-- fields `usage_count` and `cow_count`, which `--` lowers and which getting another frame leaves. A
-- frame without a record is left alone.
pub record FrameInfos (pool : FramePool) : Type 1 where
  pub cow_count : ℕ → pool.Pool → Option ℕ
  pub usage_count : ℕ → pool.Pool → Option ℕ
  pub use_more : ℕ → pool.Pool → pool.Pool
  pub cow_less : ℕ → pool.Pool → pool.Pool
  pub use_less : ℕ → pool.Pool → pool.Pool
  pub lowers_cow :
      (f c : ℕ) (p : pool.Pool)
      → cow_count f p ≡ some (suc c)
      → cow_count f (use_less f (cow_less f p)) ≡ some c
  pub lowers_usage :
      (f u : ℕ) (p : pool.Pool)
      → usage_count f p ≡ some (suc u)
      → usage_count f (use_less f (cow_less f p)) ≡ some u
  pub taken :
      (f : ℕ) (p : pool.Pool)
      → f ≢ (pool.get_free_frame p).0
      → (cow_count f (pool.get_free_frame p).1 ≡ cow_count f p)
        × (usage_count f (pool.get_free_frame p).1 ≡ usage_count f p)
  pub use_more-free : (f : ℕ) (p : pool.Pool) → pool.free (use_more f p) ≡ pool.free p
  pub use_more-Valid : (f : ℕ) (p : pool.Pool) → pool.Valid p → pool.Valid (use_more f p)

-- The entry that `map_range` writes.
unfoldable pub mapped_entry : ℕ → Bool → Bool → ℕ
unfolding set_bit align
mapped_entry frame readonly kernel =
    set_bit (set_bit (set_bit (align frame) 0 true) 1 (not readonly)) 2 (not kernel)

module _ (pool : FramePool) (infos : FrameInfos pool) where
  open infos use {cow_count, use_more, cow_less, use_less}

  -- The frame behind a page of the source, which gets a user more; 0 is the jump to `on_error`.
  unfoldable pub source_frame : Option ℕ × Memory pool → ℕ → Option (ℕ × Memory pool)
  unfolding align table
  source_frame (none, m) smem = none
  source_frame (some s, m) smem =
      let frame = align (m.words s (table smem)) in
      let m' : Memory pool = record m { frames = use_more frame m.frames } in
      some (frame, if frame == 0 then m else m')

  unfoldable pub write_mapped :
      ℕ → ℕ → Bool → Bool → Option (ℕ × Memory pool) → Bool → Option (Bool × Memory pool)
  unfolding mapped_entry set_word
  write_mapped t i readonly kernel none virtual_memory = none
  write_mapped t i readonly kernel (some (frame, m)) virtual_memory =
      if virtual_memory && frame == 0
      then some (false, m)
      else some
          (true, record m { words = set_word m.words t i (mapped_entry frame readonly kernel) })

  -- A round of `map_range`; `false` is `on_error`.
  unfoldable pub map_page :
      Bool → Bool → Bool → ℕ → ℕ → ℕ → Option ℕ × Memory pool → Option (Bool × Memory pool)
  unfolding write_mapped source_frame get_page table
  map_page virtual_memory readonly kernel cr3 smem tmem (none, m) = some (false, m)
  map_page virtual_memory readonly kernel cr3 smem tmem (some t, m) =
      let source = source_frame (get_page pool smem cr3 true false m) smem in
      write_mapped t (table tmem) readonly kernel
        (if virtual_memory then source else some (smem, m)) virtual_memory

  -- Whether the loop goes on behind a round.
  unfoldable pub map_next :
      ℕ
      → Option (Bool × Memory pool)
      → (Memory pool → Option (Bool × ℕ × Memory pool))
      → Option (Bool × ℕ × Memory pool)
  map_next offs none k = none
  map_next offs (some (false, m)) k = some (false, offs, m)
  map_next offs (some (true, m)) k = k m

  -- The loop over `n` pages from the offset `offs` on, with the offset where it stops.
  unfoldable pub map_loop :
      Bool → Bool → Bool → ℕ → ℕ → ℕ → ℕ → ℕ → Memory pool → Option (Bool × ℕ × Memory pool)
  unfolding map_next
  map_loop virtual_memory readonly kernel cr3 start tostart offs zero m = some (true, offs, m)
  map_loop virtual_memory readonly kernel cr3 start tostart offs (suc n) m =
      map_next offs
        (map_page virtual_memory readonly kernel cr3 (start + offs) (tostart + offs)
          (get_page pool (tostart + offs) cr3 true (not kernel) m))
        (map_loop virtual_memory readonly kernel cr3 start tostart (offs + 0x1000) n)

  -- The answer, with `*_start` and `*_tostart` moved to where an error has stopped it.
  pub record MapResult : Type 0 where
    pub ok : Bool
    pub start : ℕ
    pub tostart : ℕ
    pub memory : Memory pool

  unfoldable pub map_result : ℕ → ℕ → Option (Bool × ℕ × Memory pool) → Option MapResult
  map_result start tostart none = none
  map_result start tostart (some (true, offs, m)) =
      some (record { ok = true; start = start; tostart = tostart; memory = m })
  map_result start tostart (some (false, offs, m)) =
      some
        (record { ok = false; start = add64 start offs; tostart = add64 tostart offs; memory = m })

  unfoldable pub map_range : Bool → Bool → Bool → ℕ → ℕ → ℕ → ℕ → Memory pool → Option MapResult
  unfolding map_loop map_result
  map_range virtual_memory readonly kernel cr3 start end tostart m = map_result start tostart (
      map_loop virtual_memory readonly kernel cr3 start tostart 0
        ((sub64 end start + 0xFFF) / 0x1000) m)

  -- How `page_fault` ends: its answer, and whether the lock of the frames and the shootdown of the
  -- page that it began are still held.
  pub record Fault : Type 0 where
    pub handled : Bool
    pub frame_locked : Bool
    pub shootdown : Bool
    pub memory : Memory pool

  abbrev fault_end : Bool → Bool → Bool → Memory pool → Fault
  fault_end handled frame_locked shootdown m = record {
    handled = handled;
    frame_locked = frame_locked;
    shootdown = shootdown;
    memory = m;
  }

  -- The copy of a shared frame; a 0 of the pool is not looked at. The new entry has the bits 0 to 8
  -- and 63 of the old one, and can be written.
  unfoldable pub copy_frame : ℕ → ℕ → ℕ → ℕ × pool.Pool → Words → Memory pool
  copy_frame t i frame (nframe, frames') words =
      let copied : Words = λ f j. if f == nframe then words frame j else words f j in
      let old = copied t i in
      let entry = set_bit (nframe - nframe % 512 + old % 512) 63 (bit old 63) in
      record {
        words = set_word copied t i (set_bit entry 1 true);
        frames = use_less frame (cow_less frame frames');
      }

  -- A write to the page at the entry `i` of `t`, whose frame has `cow` further users.
  unfoldable pub write_fault : Option ℕ → ℕ → ℕ → ℕ → Memory pool → Fault
  write_fault none t i frame m = fault_end false true true m
  write_fault (some zero) t i frame m = fault_end false false true m
  write_fault (some (suc zero)) t i frame m = fault_end true false false (record {
    words = set_word m.words t i (set_bit (m.words t i) 1 true);
    frames = cow_less frame m.frames;
  })
  write_fault (some (suc (suc cow))) t i frame m =
      fault_end true false false (copy_frame t i frame (pool.get_free_frame m.frames) m.words)

  unfoldable pub fault_on_write : Option ℕ × Memory pool → ℕ → Fault
  unfolding write_fault align table
  fault_on_write (none, m) address = fault_end false false false m
  fault_on_write (some t, m) address =
      let frame = align (m.words t (table address)) in
      write_fault (cow_count frame m.frames) t (table address) frame m

  -- A page that is not present: it is allocated if it waits for that.
  unfoldable pub fault_on_absent :
      Bool → (ℕ → ℕ) → ℕ → ℕ → Option ℕ × Memory pool → Memory pool → Fault
  unfolding bit table align allocate_mem
  fault_on_absent mirror old cr3 address (none, m') m = fault_end false false false m
  fault_on_absent mirror old cr3 address (some t, m') m =
      let e = m'.words t (table address) in
      let info : AllocInfo = record {
        from = align address;
        amount = 0x1000;
        exec = false;
        finished = false;
        aod = false;
      } in
      let allocated = allocate_mem pool mirror info false false old cr3 m in
      if bit e 1 && bit e 3
      then fault_end true false false allocated.1
      else fault_end false false false m

  -- `page_fault`; the bits 0 and 1 of the code say that the page is present and that it was written.
  unfoldable pub page_fault : Bool → (ℕ → ℕ) → ℕ → ℕ → ℕ → Memory pool → Fault
  unfolding fault_on_absent fault_on_write get_page bit
  page_fault mirror old cr3 address errcode m =
      let found = get_page pool address cr3 false false m in
      if not (bit errcode 0)
      then fault_on_absent mirror old cr3 address found m
      else if bit errcode 1
      then fault_on_write found address
      else fault_end false false false m
