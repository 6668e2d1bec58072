-- ===== src/Syscalls/Checks.antt =====
-- How a system call looks at the memory of its caller (src/kernel/syscalls/syscall_defs.cc:
-- `repair_memory`, `validate_address`, `validate_string`, `validate_message`), over the page tables.
-- `chars` is what stands at the addresses of the process.
pub mod Strings
use cthulhu_os.Prelude.{
  ℕ, zero, suc, ◌+◌, ◌-◌, ◌%◌, ◌^◌, Bool, true, false, ◌&&◌, ◌||◌, Option, none, some, List, [],
  ◌∷◌, ltb, ◌==◌, if◌then◌else◌, add64, u64,
}
use cthulhu_os.Memory.Paging.{FramePool, Memory}
use cthulhu_os.Memory.Paging.Change.{
  Memstate, ms_okay, ms_swapped, ms_allocondem, ms_cow, ms_notpresent, ms_einvalid, check_mem_state,
}
use cthulhu_os.Memory.Paging.Demand.{AllocInfo, allocate_mem}

-- `ALIGN_UP(a, 0x1000)`
unfoldable pub next_page : ℕ → ℕ
next_page a = if a % 0x1000 == 0 then a else add64 (a - a % 0x1000) 0x1000

-- The loop over the characters of a page: whether one of them is the end of the string.
unfoldable pub has_end : (ℕ → ℕ) → ℕ → ℕ → Bool
has_end chars addr zero = false
has_end chars addr (suc n) = chars addr == 0 || has_end chars (suc addr) n

-- The sum of the bytes of a message.
unfoldable pub message_sum : (ℕ → ℕ) → ℕ → ℕ → ℕ → ℕ
message_sum chars addr zero cm = cm
message_sum chars addr (suc n) cm = message_sum chars (suc addr) n ((cm + chars addr) % u64)

module _ (pool : FramePool) (mirror : Bool) (old : ℕ → ℕ) (cr3 : ℕ) where
  -- What a check comes to: the answer, `c->present` afterwards and the memory.
  pub record Checked : Type 0 where
    pub valid : Bool
    pub present : Bool
    pub memory : Memory pool

  unfoldable pub repair_loop : List ℕ → Bool → Memory pool → Checked
  unfolding allocate_mem
  repair_loop [] present m = record { valid = true; present = present; memory = m }
  repair_loop (b ∷ bs) present m =
      let info : AllocInfo = record {
        from = b;
        amount = 0x1000;
        exec = false;
        finished = false;
        aod = false;
      } in
      let r = allocate_mem pool mirror info false false old cr3 m in
      let rest = repair_loop bs present r.1 in
      if r.0.finished then rest else record { valid = false; present = true; memory = r.1 }

  unfoldable pub repair_memory : Memstate → List ℕ → Bool → Memory pool → Checked
  unfolding repair_loop
  repair_memory ms_allocondem elements present m = repair_loop elements present m
  repair_memory state elements present m = record { valid = false; present = present; memory = m }

  unfoldable pub when_okay : Memstate × List ℕ → Checked → Bool → Memory pool → Checked
  unfolding repair_memory
  when_okay (ms_okay, elements) next present m = next
  when_okay (state, elements) next present m = repair_memory state elements present m

  unfoldable pub validate_address : ℕ → ℕ → Bool → Memory pool → Checked
  unfolding when_okay check_mem_state
  validate_address address size present m =
      when_okay (check_mem_state pool address size 0x512 [] cr3 m)
        (record { valid = true; present = present; memory = m }) present m

  unfoldable pub if_okay : Memstate × List ℕ → Option Checked → Bool → Memory pool → Option Checked
  unfolding repair_memory
  if_okay (ms_okay, elements) next present m = next
  if_okay (state, elements) next present m = some (repair_memory state elements present m)

  -- The loop of `validate_string`; `none` is a loop that is not done after `fuel` rounds.
  -- `usedentries` counts on from round to round, over a buffer of 0x512 entries.
  unfoldable pub string_loop : ℕ → (ℕ → ℕ) → ℕ → ℕ → Bool → Memory pool → List ℕ → Option Checked
  unfolding if_okay check_mem_state has_end
  string_loop zero chars addr nextb present m elements = none
  string_loop (suc fuel) chars addr nextb present m elements =
      let size = if ltb nextb addr then nextb + (u64 - addr) else nextb - addr in
      let found = check_mem_state pool addr size 0x512 elements cr3 m in
      let rest =
        string_loop fuel chars (add64 addr 0x1000) (add64 nextb 0x1000) present m found.1 in
      if_okay found
        (if has_end chars addr size
          then some (record { valid = true; present = present; memory = m })
          else rest)
        present m

  unfoldable pub validate_string : ℕ → (ℕ → ℕ) → ℕ → Bool → Memory pool → Option Checked
  unfolding string_loop next_page
  validate_string fuel chars string present m =
      string_loop fuel chars string (next_page string) present m []

  -- `size` is `sizeof(message_t)`. The sum is taken where the address is not valid.
  unfoldable pub validate_message : (ℕ → ℕ) → ℕ → ℕ → Bool → Memory pool → Checked
  unfolding validate_address message_sum
  validate_message chars size message present m =
      let test = validate_address message size present m in
      if test.valid
      then test
      else record test { valid = message_sum chars message size 0 % 16 == 0 }
