-- ===== src/Memory/Paging.antt =====
-- The page tables (src/kernel/memory/paging.c: `__get_page`, `free_page_structure`,
-- `allocate_frame`, `deallocate_frame`, `allocate`, `deallocate`, `allocated`). The memory is read
-- and written by the physical address of a frame and the number of a 64-bit word in it;
-- `physical_to_virtual` only adds the address where this memory is mapped. A pointer to an entry is
-- a table and an index. The frame pool is an interface.
pub mod Entry
pub mod Walk
pub mod Put
pub mod Tree
pub mod Back
pub mod Range
pub mod Sections
pub mod Translate
pub mod Change
pub mod Kept
pub mod Demand
pub mod Shared
pub mod Mapped
pub mod Copied
mod Tests
pub mod Grow
use cthulhu_os.Prelude.{
  ℕ, zero, suc, ◌+◌, ◌-◌, ◌*◌, ◌/◌, ◌%◌, ◌^◌, ◌≡◌, ◌<◌, ◌≢◌, Bool, true, false, not, ◌&&◌, Option,
  none, some, List, [], ◌∷◌, ltb, ◌==◌, if◌then◌else◌, add64, All,
}
use cthulhu_os.Memory.Frames.{align}
use cthulhu_os.Memory.Frames.Pool.{first_or_zero, rest_of}
use cthulhu_os.Memory.Frames.Serve.{Distinct}

-- What the page tables need of the frame pool: `get_free_frame` answers with the first of the free
-- frames, or 0. `free_frame` tells whether it has put the frame back.
pub record FramePool : Type 1 where
  pub Pool : Type 0
  pub get_free_frame : Pool → ℕ × Pool
  pub free_frame : ℕ → Pool → Bool × Pool
  pub Valid : Pool → Type 0
  pub free : Pool → List ℕ
  pub gets : (p : Pool) → Valid p → (get_free_frame p).0 ≡ first_or_zero (free p)
  pub leaves : (p : Pool) → Valid p → free ((get_free_frame p).1) ≡ rest_of (free p)
  pub stays : (p : Pool) → Valid p → Valid ((get_free_frame p).1)
  pub distinct : (p : Pool) → Valid p → Distinct (free p)
  pub frames : (p : Pool) → Valid p → All (λ f. (f % 0x1000 ≡ 0) × (0 < f) × (f < 2 ^ 63)) (free p)

-- A field of one bit at position `k`.
unfoldable pub bit : ℕ → ℕ → Bool
bit a k = a / 2 ^ k % 2 == 1

unfoldable pub set_bit : ℕ → ℕ → Bool → ℕ
set_bit a k b = a - a / 2 ^ k % 2 * 2 ^ k + (if b then 2 ^ k else 0)

-- `PRESENT`
unfoldable pub present : ℕ → Bool
unfolding bit
present e = bit e 0

-- The fields `pml`, `directory_ptr` and `directory` of `v_address_t`, and `table`.
unfoldable pub path : ℕ → List ℕ
path v = (v / 2 ^ 39 % 512) ∷ (v / 2 ^ 30 % 512) ∷ (v / 2 ^ 21 % 512) ∷ []

unfoldable pub table : ℕ → ℕ
table v = v / 2 ^ 12 % 512

abbrev pub Words : Type 0
Words = ℕ → ℕ → ℕ

unfoldable pub set_word : Words → ℕ → ℕ → ℕ → Words
set_word words t i e = λ f j. if f == t && j == i then e else words f j

-- `memset` of a frame
unfoldable pub fill : Words → ℕ → ℕ → Words
fill words t w = λ f j. if f == t then w else words f j

-- The entry for a new table: the bits `present`, `us` and `rw` on its frame.
unfoldable pub table_entry : ℕ → Bool → ℕ
unfolding set_bit
table_entry frame user = set_bit (set_bit (set_bit frame 0 true) 2 user) 1 true

-- The bits that `allocate_frame` sets on a frame's address.
unfoldable pub page_entry : ℕ → Bool → Bool → Bool → ℕ
unfolding set_bit
page_entry frame kernel readonly exec =
    set_bit (set_bit (set_bit (set_bit frame 0 true) 1 (not readonly)) 2 (not kernel)) 63 exec

-- Whether the first `n` entries are 0.
unfoldable pub all_zero : (ℕ → ℕ) → ℕ → Bool
all_zero entries zero = true
all_zero entries (suc n) = all_zero entries n && entries n == 0

-- `_ALIGN_UP`
unfoldable pub align_page_up : ℕ → ℕ
unfolding align
align_page_up v = if v % 0x1000 == 0 then v else align (add64 v 0x1000)

module _ (pool : FramePool) where
  open pool use {Pool, get_free_frame, free_frame}

  pub record Memory : Type 0 where
    pub words : Words
    pub frames : Pool

  -- A new table below the entry `i` of `t`, unless the pool has no frame.
  unfoldable pub new_table : Bool → ℕ → ℕ → Memory → ℕ × Pool → Option ℕ × Memory
  unfolding table_entry fill set_word align
  new_table user t i m (frame, frames') =
      let entry = table_entry frame user in
      let words' = fill (set_word m.words t i entry) (align entry) 0 in
      if frame == 0
      then (none, record { words = m.words; frames = frames' })
      else (some (align (words' t i)), record { words = words'; frames = frames' })

  -- One of the three equal steps of `__get_page`: the table that the entry `i` of `t` leads to.
  unfoldable pub descend : Bool → Bool → ℕ → ℕ → Memory → Option ℕ × Memory
  unfolding present align new_table
  descend allocate_new user t i m =
      if present (m.words t i)
      then (some (align (m.words t i)), m)
      else if allocate_new
      then new_table user t i m (get_free_frame m.frames)
      else (none, m)

  -- The return of NULL.
  unfoldable pub onward : Option ℕ × Memory → (ℕ → Memory → Option ℕ × Memory) → Option ℕ × Memory
  onward (none, m) next = (none, m)
  onward (some t, m) next = next t m

  unfoldable pub walk : Bool → Bool → ℕ → List ℕ → Memory → Option ℕ × Memory
  unfolding onward descend
  walk allocate_new user t [] m = (some t, m)
  walk allocate_new user t (i ∷ is) m =
      onward (descend allocate_new user t i m) (λ t' m'. walk allocate_new user t' is m')

  -- `__get_page`: the table whose entry `table vaddress` is the page, or NULL.
  unfoldable pub get_page : ℕ → ℕ → Bool → Bool → Memory → Option ℕ × Memory
  unfolding walk align path
  get_page vaddress cr3 allocate_new user m = walk allocate_new user (align cr3) (path vaddress) m

  -- The word at a page, 0 where `__get_page` answers NULL.
  unfoldable pub entry_at : Option ℕ × Memory → ℕ → ℕ
  entry_at (none, m) i = 0
  entry_at (some t, m) i = m.words t i

  unfoldable pub page : ℕ → ℕ → Memory → ℕ
  unfolding get_page entry_at table
  page vaddress cr3 m = entry_at (get_page vaddress cr3 false false m) (table vaddress)

  -- `allocated`
  unfoldable pub allocated : ℕ → ℕ → Memory → Bool
  unfolding page present
  allocated addr cr3 m = present (page addr cr3 m)

  -- The branch of `allocate_frame` for a page that is not present; a frame of the pool is filled
  -- with 0xCC once the memory is mapped (`mirror`).
  unfoldable pub new_frame : Bool → Bool → Bool → Bool → ℕ → ℕ → Memory → ℕ × Pool → ℕ × Memory
  unfolding page_entry align fill set_word bit
  new_frame mirror kernel readonly exec t i m (frame, frames') =
      let old = m.words t i in
      let exec' = if bit old 1 && bit old 3 then bit old 4 else exec in
      let entry = page_entry frame kernel readonly exec' in
      let words' = set_word m.words t i entry in
      let at = if exec' then align entry % 2 ^ 63 else align entry in
      let filled = if mirror then fill words' at 0xCCCCCCCCCCCCCCCC else words' in
      if frame == 0
      then (0, record { words = m.words; frames = frames' })
      else (align (filled t i), record { words = filled; frames = frames' })

  unfoldable pub allocate_frame : Bool → Bool → Bool → Bool → ℕ → ℕ → Memory → ℕ × Memory
  unfolding new_frame page_entry align set_word present
  allocate_frame mirror kernel readonly exec t i m =
      let entry = page_entry (align (m.words t i)) kernel readonly exec in
      if present (m.words t i)
      then (align entry, record m { words = set_word m.words t i entry })
      else new_frame mirror kernel readonly exec t i m (get_free_frame m.frames)

  -- `free_frame`, which fills a frame that goes back with zeros.
  unfoldable pub release_frame : ℕ → Memory → Memory
  unfolding align fill
  release_frame address m =
      let r = free_frame address m.frames in
      record { words = if r.0 then fill m.words (align address) 0 else m.words; frames = r.1 }

  -- `free_page_structure` after the entry of `t` is cleared: a table that has become empty is freed
  -- and its entry in the table above is cleared. `above` holds these entries, the next one first.
  unfoldable pub free_empty : ℕ → List (ℕ × ℕ) → Memory → Memory
  unfolding all_zero release_frame set_word align
  free_empty t [] m = m
  free_empty t ((t', i) ∷ above) m =
      let freed = release_frame (align (m.words t' i)) m in
      let rest = free_empty t' above (record freed { words = set_word freed.words t' i 0 }) in
      if all_zero (m.words t) 512 then rest else m

  -- The entries on the way down, the last one first; none where an entry is not present.
  unfoldable pub trail : ℕ → List ℕ → List (ℕ × ℕ) → Memory → Option (ℕ × List (ℕ × ℕ))
  unfolding present align
  trail t [] above m = some (t, above)
  trail t (i ∷ is) above m =
      let further = trail (align (m.words t i)) is ((t, i) ∷ above) m in
      if present (m.words t i) then further else none

  unfoldable pub free_trail : ℕ → Memory → Option (ℕ × List (ℕ × ℕ)) → Memory
  unfolding free_empty set_word
  free_trail i m none = m
  free_trail i m (some (t, above)) =
      free_empty t above (record m { words = set_word m.words t i 0 })

  unfoldable pub free_page_structure : ℕ → ℕ → Memory → Memory
  unfolding free_trail trail align path table
  free_page_structure vaddress cr3 m =
      free_trail (table vaddress) m (trail (align cr3) (path vaddress) [] m)

  unfoldable pub deallocate_frame : Option ℕ × Memory → ℕ → ℕ → Memory
  unfolding present release_frame align set_word free_page_structure table
  deallocate_frame (none, m) va cr3 = m
  deallocate_frame (some t, m) va cr3 =
      let freed = release_frame (align (m.words t (table va))) m in
      if present (m.words t (table va))
      then free_page_structure va cr3 (record freed { words = set_word freed.words t (table va) 0 })
      else m

  -- One round of `allocate`; the flag says that it has succeeded.
  unfoldable pub back_page : Bool → Bool → Bool → Option ℕ × Memory → ℕ → Bool × Memory
  unfolding allocate_frame table
  back_page mirror kernel readonly (none, m) addr = (false, m)
  back_page mirror kernel readonly (some t, m) addr =
      let r = allocate_frame mirror kernel readonly false t (table addr) m in (not (r.0 == 0), r.1)

  -- The loop of `allocate` over `n` pages from `addr` on, with the address where it stops.
  unfoldable pub allocate_loop : Bool → Bool → Bool → ℕ → ℕ → ℕ → Memory → Bool × ℕ × Memory
  unfolding back_page get_page
  allocate_loop mirror kernel readonly cr3 addr zero m = (true, addr, m)
  allocate_loop mirror kernel readonly cr3 addr (suc n) m =
      let r = back_page mirror kernel readonly (get_page addr cr3 true (not kernel) m) addr in
      let further = allocate_loop mirror kernel readonly cr3 (addr + 0x1000) n r.1 in
      if r.0 then further else (false, addr, r.1)

  unfoldable pub deallocate_loop : ℕ → ℕ → ℕ → Memory → Memory
  unfolding deallocate_frame get_page
  deallocate_loop cr3 addr zero m = m
  deallocate_loop cr3 addr (suc n) m =
      deallocate_loop cr3 (addr + 0x1000) n
        (deallocate_frame (get_page addr cr3 false false m) addr cr3)

  -- `deallocate`, without the messages to the other processors.
  unfoldable pub deallocate : ℕ → ℕ → ℕ → Memory → Memory
  unfolding deallocate_loop align
  deallocate from amount cr3 m =
      let amount' = if from % 0x1000 == 0 then amount else add64 amount (from - align from) in
      let aligned = if from % 0x1000 == 0 then from else align from in
      let end = add64 aligned amount' in
      let end_addr = if end % 0x1000 == 0 then end else add64 (align end) 0x1000 in
      if ltb aligned end_addr
      then deallocate_loop cr3 aligned ((end_addr - aligned) / 0x1000) m
      else m

  unfoldable pub allocate : Bool → ℕ → ℕ → Bool → Bool → ℕ → Memory → Bool × Memory
  unfolding allocate_loop deallocate align_page_up align
  allocate mirror from amount kernel readonly cr3 m =
      let amount' = align_page_up (add64 amount (from - align from)) in
      let start = align from in
      let end = add64 start amount' in
      let pages = if ltb start end then amount' / 0x1000 else 0 in
      let (done, addr, m') = allocate_loop mirror kernel readonly cr3 start pages m in
      if done then (true, m') else (false, deallocate start (addr - start) cr3 m')
