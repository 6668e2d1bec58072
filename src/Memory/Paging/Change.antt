-- ===== src/Memory/Paging/Change.antt =====
-- `create_pml4`, `allocate_physret`, `mem_change_type` and `check_mem_state` of
-- src/kernel/memory/paging.c. `none` is a fault: a read or write through the NULL of `get_page`.
use cthulhu_os.Prelude.{
  ℕ, zero, suc, ◌+◌, ◌-◌, ◌/◌, ◌%◌, ◌^◌, inl, inr, ◌⊎◌, Bool, true, false, not, ◌&&◌, ◌||◌, Option,
  none, some, List, [], ◌∷◌, ◌++◌, ltb, leb, ◌==◌, if◌then◌else◌, add64, length,
}
use cthulhu_os.Memory.Frames.{align}
use cthulhu_os.Memory.Paging.{
  FramePool, Memory, fill, bit, set_bit, present, table, set_word, get_page, allocate_frame,
  align_page_up,
}
use mathlib.Core.Option

-- `CHNG_TYPE_RW` and `CHNG_TYPE_SU`
pub data ChangeType : Type 0 where
  chng_type_rw chng_type_su : ChangeType

-- `memstate_t`, with `ms_einvalid` for the state before the first page.
pub data Memstate : Type 0 where
  ms_okay ms_swapped ms_allocondem ms_cow ms_notpresent ms_einvalid : Memstate

unfoldable pub is_state : Memstate → Memstate → Bool
is_state ms_einvalid ms_einvalid = true
is_state ms_swapped ms_swapped = true
is_state ms_allocondem ms_allocondem = true
is_state a b = false

-- The flag of an entry that the type names.
unfoldable pub change_flag : ChangeType → Bool → ℕ → ℕ
unfolding set_bit
change_flag chng_type_rw new_value e = set_bit e 1 new_value
change_flag chng_type_su new_value e = set_bit e 2 new_value

module _ (pool : FramePool) where
  open pool use {Pool, get_free_frame}

  -- The new table of the first level, with the kernel's half of the one at `active`.
  unfoldable pub new_pml4 : ℕ → Memory pool → ℕ × Pool → ℕ × Memory pool
  unfolding align fill
  new_pml4 active m (target, frames') =
      let cleared = fill m.words target 0 in
      let copied : ℕ → ℕ → ℕ = λ f j.
        if f == target && leb 256 j && ltb j 512 then cleared (align active) j else cleared f j in
      if target == 0
      then (0, record { words = m.words; frames = frames' })
      else (target - target % 16 + active % 16, record { words = copied; frames = frames' })

  unfoldable pub create_pml4 : ℕ → Memory pool → ℕ × Memory pool
  unfolding new_pml4
  create_pml4 active m = new_pml4 active m (get_free_frame m.frames)

  unfoldable pub physret :
      Bool → Bool → Bool → Bool → ℕ → Option ℕ × Memory pool → Option (ℕ × Memory pool)
  unfolding allocate_frame table
  physret mirror kernel rw_flag exec addr (none, m) = none
  physret mirror kernel rw_flag exec addr (some t, m) =
      some (allocate_frame pool mirror kernel rw_flag exec t (table addr) m)

  -- `allocate_physret`; its `rw` is what `allocate_frame` takes as `readonly`.
  unfoldable pub allocate_physret :
      Bool → ℕ → Bool → Bool → Bool → ℕ → Memory pool → Option (ℕ × Memory pool)
  unfolding physret get_page
  allocate_physret mirror block_addr kernel rw_flag exec cr3 m =
      physret mirror kernel rw_flag exec block_addr (get_page pool block_addr cr3 true false m)

  -- A round of `mem_change_type`.
  unfoldable pub change_page : ChangeType → Bool → ℕ → Option ℕ × Memory pool → Option (Memory pool)
  unfolding present change_flag set_word table
  change_page change_type new_value addr (none, m) = none
  change_page change_type new_value addr (some t, m) =
      let e = m.words t (table addr) in
      let changed : Memory pool = record m {
        words = set_word m.words t (table addr) (change_flag change_type new_value e);
      } in
      some (if not (present e) then changed else m)

  unfoldable pub change_loop : ChangeType → Bool → ℕ → ℕ → ℕ → Memory pool → Option (Memory pool)
  unfolding change_page get_page Option.bind
  change_loop change_type new_value cr3 addr zero m = some m
  change_loop change_type new_value cr3 addr (suc n) m =
      Option.bind (change_page change_type new_value addr (get_page pool addr cr3 true false m))
        (λ m'. change_loop change_type new_value cr3 (addr + 0x1000) n m')

  unfoldable pub mem_change_type :
      ℕ → ℕ → ChangeType → Bool → ℕ → Memory pool → Option (Memory pool)
  unfolding change_loop align_page_up
  mem_change_type from amount change_type new_value cr3 m =
      let amount' = align_page_up amount in
      let pages = if ltb from (add64 from amount') then amount' / 0x1000 else 0 in
      change_loop change_type new_value cr3 from pages m

  -- What `check_mem_state` has found so far: the state and the entries stored.
  abbrev pub Found : Type 0
  Found = Memstate × List ℕ

  -- A page that is not present but valid. `inl` is the return.
  unfoldable pub check_reason : Memstate → ℕ → ℕ → Found → Found ⊎ Found
  unfolding is_state
  check_reason reason stored maxc (state, entries) =
      let state' = if is_state state ms_einvalid then reason else state in
      if is_state state' reason || leb maxc (length entries)
      then inr (state', entries ++ (stored ∷ []))
      else inl (state', entries)

  unfoldable pub check_entry : ℕ → ℕ → ℕ → Found → Found ⊎ Found
  unfolding bit present check_reason
  check_entry e addr maxc (state, entries) =
      if present e
      then inr (state, entries)
      else if not (bit e 1)
      then inl (ms_notpresent, entries)
      else if bit e 2
      then check_reason ms_swapped (e / 2 ^ 16) maxc (state, entries)
      else if bit e 3
      then check_reason ms_allocondem addr maxc (state, entries)
      else inr (state, entries)

  unfoldable pub check_slot : ℕ → ℕ → Option ℕ × Memory pool → Found → Found ⊎ Found
  unfolding check_entry table
  check_slot addr maxc (none, m) (state, entries) = inl (ms_notpresent, entries)
  check_slot addr maxc (some t, m) found = check_entry (m.words t (table addr)) addr maxc found

  unfoldable pub check_on : Found ⊎ Found → (Found → Found) → Found
  check_on (inl found) k = found
  check_on (inr found) k = k found

  unfoldable pub check_loop : ℕ → ℕ → ℕ → ℕ → Memory pool → Found → Found
  unfolding check_on check_slot get_page
  check_loop cr3 addr zero maxc m (state, entries) = (ms_okay, entries)
  check_loop cr3 addr (suc n) maxc m found =
      check_on (check_slot addr maxc (get_page pool addr cr3 false false m) found)
        (λ found'. check_loop cr3 (addr + 0x1000) n maxc m found')

  -- `check_mem_state`: the state, and the entries in `storeptr` after those that stood there.
  unfoldable pub check_mem_state : ℕ → ℕ → ℕ → List ℕ → ℕ → Memory pool → Found
  unfolding check_loop
  check_mem_state address size maxc entries cr3 m =
      let pages = if ltb address (add64 address size) then (size + 0xFFF) / 0x1000 else 0 in
      check_loop cr3 address pages maxc m (ms_einvalid, entries)
