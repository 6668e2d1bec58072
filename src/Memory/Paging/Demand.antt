-- ===== src/Memory/Paging/Demand.antt =====
-- Memory that is allocated page by page with the place where it stopped
-- (src/kernel/memory/paging.c: `allocate_mem`).
use cthulhu_os.Prelude.{
  ℕ, zero, suc, ◌+◌, ◌-◌, ◌/◌, Bool, true, false, not, Option, none, some, ltb, ◌==◌, if◌then◌else◌,
  add64, sub64,
}
use cthulhu_os.Memory.Frames.{align}
use cthulhu_os.Memory.Paging.{
  FramePool, Memory, set_bit, set_word, table, get_page, allocate_frame, align_page_up,
}

-- `alloc_info_t`
pub record AllocInfo : Type 0 where
  pub from : ℕ
  pub amount : ℕ
  pub exec : Bool
  pub finished : Bool
  pub aod : Bool

-- The entry of a page to be allocated on demand; `old` is what the variable on the stack held.
unfoldable pub demand_entry : ℕ → Bool → ℕ
unfolding set_bit
demand_entry old exec = set_bit (set_bit (set_bit (set_bit old 0 false) 1 true) 3 true) 4 exec

module _ (pool : FramePool) where
  -- A round of the loop; `false` is a return.
  unfoldable pub demand_page :
      Bool → Bool → Bool → ℕ → AllocInfo → Option ℕ × Memory pool → ℕ → Bool × Memory pool
  unfolding demand_entry set_word allocate_frame table
  demand_page mirror kernel readonly old info (none, m) addr = (false, m)
  demand_page mirror kernel readonly old info (some t, m) addr =
      let r = allocate_frame pool mirror kernel readonly info.exec t (table addr) m in
      if info.aod
      then (true, record m { words = set_word m.words t (table addr) (demand_entry old info.exec) })
      else (not (r.0 == 0), r.1)

  -- The loop over `n` pages. `from + amount` stays the same from round to round.
  unfoldable pub allocate_mem_loop :
      Bool → Bool → Bool → (ℕ → ℕ) → ℕ → ℕ → ℕ → AllocInfo → Memory pool → AllocInfo × Memory pool
  unfolding demand_page get_page
  allocate_mem_loop mirror kernel readonly old cr3 addr zero info m =
      (record info { finished = true }, m)
  allocate_mem_loop mirror kernel readonly old cr3 addr (suc n) info m =
      let r =
        demand_page mirror kernel readonly (old addr) info
          (get_page pool addr cr3 true (not kernel) m) addr in
      let info' = record info {
        from = add64 info.from 0x1000;
        amount = sub64 info.amount 0x1000;
      } in
      let further = allocate_mem_loop mirror kernel readonly old cr3 (addr + 0x1000) n info' r.1 in
      if r.0 then further else (record info { finished = false }, r.1)

  unfoldable pub allocate_mem :
      Bool → AllocInfo → Bool → Bool → (ℕ → ℕ) → ℕ → Memory pool → AllocInfo × Memory pool
  unfolding allocate_mem_loop align align_page_up
  allocate_mem mirror info kernel readonly old cr3 m =
      let amount' = align_page_up (add64 info.amount (info.from - align info.from)) in
      let start = align info.from in
      let pages = if ltb start (add64 start amount') then amount' / 0x1000 else 0 in
      allocate_mem_loop mirror kernel readonly old cr3 start pages
        (record info { from = start; amount = amount' }) m
