-- ===== src/Process/Creation.antt =====
-- Creating a process (src/kernel/processes/process.c): the blocks that the kernel takes from the C
-- library on the way, each named for what it is for, and their release where a later step fails.
-- `create_array`, `create_uint64_table`, `create_queue_static` and `create_list_static` are the C
-- library's and answer as `malloc` does: NULL or a new block.
pub mod Base
pub mod Stage
pub mod Init
pub mod Blocks
pub mod Cleanup
pub mod Kept
pub mod Ledger
pub mod Leaks
mod Tests
use cthulhu_os.Prelude.{
  ℕ, zero, suc, ◌+◌, ◌*◌, Bool, true, false, Option, none, some, List, [], ◌∷◌, ◌==◌, if◌then◌else◌,
}
use mathlib.Core.Option

-- The blocks of one creation; the copied strings carry their index. `page_table` is the frame of
-- `create_pml4`, `temp_proc` the record of a process in construction.
pub data Block : Type 0 where
  process_block fds threads page_table futexes input_buffer pq_input_buffer : Block
  blocked_wait_messages temp_processes main_thread continuation futex_block temp_proc : Block
  argv_table envp_table : Block
  argv_string envp_string : ℕ → Block

abbrev pub block_code : Block → ℕ
block_code process_block = 0
block_code fds = 1
block_code threads = 2
block_code page_table = 3
block_code futexes = 4
block_code input_buffer = 5
block_code pq_input_buffer = 6
block_code blocked_wait_messages = 7
block_code temp_processes = 8
block_code main_thread = 9
block_code continuation = 10
block_code futex_block = 11
block_code temp_proc = 12
block_code argv_table = 13
block_code envp_table = 14
block_code (argv_string i) = 15 + 2 * i
block_code (envp_string i) = 16 + 2 * i

-- The blocks in use, the last one first, and the calls of the C library with a pointer that is none
-- of them (NULL, since every pointer here is either a block in use or NULL).
pub record Heap : Type 0 where
  pub live : List Block
  pub faults : List Block

abbrev pub take_block : Block → Heap → Heap
take_block b h = record h { live = b ∷ h.live }

unfoldable pub remove : Block → List Block → Option (List Block)
remove b [] = none
remove b (x ∷ xs) =
    let rest = Option.map (λ ys. x ∷ ys) (remove b xs) in
    if block_code b == block_code x then some xs else rest

unfoldable pub released : Block → Heap → Option (List Block) → Heap
released b h none = record h { faults = b ∷ h.faults }
released b h (some xs) = record h { live = xs }

-- `free`, `destroy_array`, `destroy_table`, `free_queue` or `free_list` of a block.
unfoldable pub free_block : Block → Heap → Heap
unfolding remove released
free_block b h = released b h (remove b h.live)

unfoldable pub release_all : List Block → Heap → Heap
unfolding free_block
release_all [] h = h
release_all (b ∷ bs) h = release_all bs (free_block b h)

-- A call that reads or writes through the pointer.
unfoldable pub touch : Block → Heap → Heap
unfolding remove
touch b h = elim (remove b h.live) [ none ↦ record h { faults = b ∷ h.faults } | some xs ↦ h ]

-- The errors: `ENOMEM_INTERNAL` and `EINVAL`.
pub data Error : Type 0 where
  enomem_internal einval : Error

-- What a step of the creation comes to: a value, or `return err`, or a fault of the processor.
pub data Made (A : Type 0) : Type 0 where
  made : A → Heap → Made A
  failed : Error → Heap → Made A
  faulted : Made A

unfoldable pub after_made : {A B : Type 0} → Made A → (A → Heap → Made B) → Made B
after_made (made a h) k = k a h
after_made (failed e h) k = failed e h
after_made faulted k = faulted

-- A failure is followed by more releases.
unfoldable pub or_undo : {A : Type 0} → (Heap → Heap) → Made A → Made A
or_undo f (made a h) = made a h
or_undo f (failed e h) = failed e (f h)
or_undo f faulted = faulted

-- What follows a pointer that may be NULL.
unfoldable pub on_null : {X A : Type 0} → Option X → Made A → (X → Made A) → Made A
on_null none m k = m
on_null (some x) m k = k x

-- `free` of the strings from the index `j` on, `n` of them.
unfoldable pub free_strings : (ℕ → Block) → ℕ → ℕ → Heap → Heap
unfolding free_block
free_strings string j zero h = h
free_strings string j (suc n) h = free_strings string (suc j) n (free_block (string j) h)

unfoldable pub free_array : Block → (ℕ → Block) → ℕ → Heap → Heap
unfolding free_block free_strings
free_array table string count h = free_block table (free_strings string 0 count h)

-- `grants` says which requests the C library meets.
module _ (grants : Block → Bool) where
  -- `p = ...; if (p == NULL) { ...; return ENOMEM_INTERNAL; }`
  unfoldable pub try : {A : Type 0} → Block → List Block → Heap → (Heap → Made A) → Made A
  unfolding release_all
  try b frees h k =
      if grants b then k (take_block b h) else failed enomem_internal (release_all frees h)

  -- A request whose answer is not looked at.
  unfoldable pub ask : Block → Heap → Heap
  ask b h = if grants b then take_block b h else h

  -- The loop of `cpy_array` from the index `i` on: whether every string got its copy; the copies
  -- before the one that failed are freed.
  unfoldable pub copy_loop : (ℕ → Block) → ℕ → List (List ℕ) → Heap → Bool × Heap
  unfolding free_strings
  copy_loop string i [] h = (true, h)
  copy_loop string i (s ∷ ss) h =
      if grants (string i)
      then copy_loop string (suc i) ss (take_block (string i) h)
      else (false, free_strings string 0 i h)

  unfoldable pub strings_copied : Block → List (List ℕ) → Bool × Heap → Made (List (List ℕ))
  unfolding free_block
  strings_copied table array (true, h) = made array h
  strings_copied table array (false, h) = failed enomem_internal (free_block table h)

  -- `cpy_array`: the kernel's own copy of the strings.
  unfoldable pub cpy_array : Block → (ℕ → Block) → List (List ℕ) → Heap → Made (List (List ℕ))
  unfolding copy_loop strings_copied
  cpy_array table string array h =
      if grants table
      then strings_copied table array (copy_loop string 0 array (take_block table h))
      else failed enomem_internal h
