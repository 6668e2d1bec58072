-- ===== src/Syscalls/Heap.antt =====
-- Memory that a process asks for (src/kernel/syscalls/syscall_defs.cc: `allocate_memory`,
-- `allocate_memory_cont`, `deallocate_memory`), over the memory map and the page tables. `locked`
-- tells whether the locks of the processor and of the threads are held: then both routines spin for ever,
-- which is `none`.
pub mod Restored
use cthulhu_os.Prelude.{
  ℕ, zero, suc, Bool, true, false, not, Option, none, some, List, [], ◌∷◌, ◌==◌, if◌then◌else◌,
  add64, get_elem?, set,
}
use mathlib.Core.Option
use cthulhu_os.Process.MemMap.{
  Area, heap_data, AreaType, Hole, null, hole_at, fault, find_va_hole, unlink,
}
use cthulhu_os.Memory.Paging.{FramePool, Memory, deallocate}
use cthulhu_os.Memory.Paging.Demand.{AllocInfo, allocate_mem}
use cthulhu_os.Syscalls.{Syscall, Continuation}

unfoldable pub is_heap_data : AreaType → Bool
is_heap_data heap_data = true
is_heap_data t = false

-- The loop of `deallocate_memory`: the first area that starts at `from`.
unfoldable pub start_link : ℕ → List Area → Option ℕ
start_link from [] = none
start_link from (m ∷ ms) =
    let rest = Option.map suc (start_link from ms) in if m.vastart == from then some 0 else rest

module _ (pool : FramePool) where
  -- What the three routines change.
  pub record Caller (Routine : Type 0) : Type 0 where
    pub maps : List Area
    pub memory : Memory pool
    pub freed : List Area
    pub locked : Bool
    pub continuation : Continuation Routine

module _ (pool : FramePool) {Routine : Type 0} (mirror : Bool) (old : ℕ → ℕ) (cr3 : ℕ)
    (cont : Syscall Routine) where
  unfoldable pub allocate_memory_cont : ℕ → ℕ → ℕ → Caller pool Routine → ℕ × Caller pool Routine
  unfolding allocate_mem
  allocate_memory_cont from size addr s =
      let info : AllocInfo = record {
        amount = size;
        from = from;
        exec = true;
        finished = false;
        aod = true;
      } in
      let r = allocate_mem pool mirror info false false old cr3 s.memory in
      let c : Continuation Routine = record s.continuation {
        continuation = cont;
        arg0 = from;
        arg1 = size;
        arg2 = addr;
      } in
      let stopped : Continuation Routine = record c {
        arg0 = r.0.from;
        arg1 = r.0.amount;
        arg2 = addr;
        present = true;
      } in
      (addr, record s { memory = r.1; continuation = if r.0.finished then c else stopped })

  -- The area at the link is heap data from now on; `none` is a fault.
  unfoldable pub take_heap :
      ℕ → ℕ → List Area → Caller pool Routine → Option Area → Option (ℕ × Caller pool Routine)
  unfolding allocate_memory_cont
  take_heap size i ms s none = none
  take_heap size i ms s (some a) = some (
      allocate_memory_cont a.vastart size a.vastart
        (record s { maps = set ms i (record a { mtype = heap_data }); locked = false }))

  -- `find_va_hole` never answers NULL: it returns a link, and the code reads the area from it.
  unfoldable pub in_hole : ℕ → Hole → Caller pool Routine → Option (ℕ × Caller pool Routine)
  unfolding take_heap
  in_hole size null s = none
  in_hole size fault s = none
  in_hole size (hole_at i ms) s = take_heap size i ms s (get_elem? ms i)

  unfoldable pub allocate_memory :
      Bool → (ℕ → ℕ) → ℕ → Caller pool Routine → Option (ℕ × Caller pool Routine)
  unfolding in_hole find_va_hole
  allocate_memory malloc_ok random size s =
      if s.locked then none else in_hole size (find_va_hole malloc_ok random s.maps size 0x1000) s

  -- `deallocate_memory` from the area at the link on. The returns of 1 keep the locks.
  unfoldable pub give_back_area :
      ℕ → ℕ → ℕ → Caller pool Routine → Option Area → ℕ × Caller pool Routine
  unfolding is_heap_data unlink deallocate
  give_back_area from aamount i s none = (1, record s { locked = true })
  give_back_area from aamount i s (some a) =
      if not (a.vaend == add64 from aamount)
      then (1, record s { locked = true })
      else if not (is_heap_data a.mtype)
      then (1, record s { locked = true })
      else (
        0,
        record s {
          maps = unlink i s.maps;
          memory = deallocate pool a.vastart aamount cr3 s.memory;
          freed = a ∷ s.freed;
          locked = false;
        },
      )

  unfoldable pub at_link : ℕ → ℕ → Caller pool Routine → Option ℕ → ℕ × Caller pool Routine
  unfolding give_back_area
  at_link from aamount s none = (1, record s { locked = true })
  at_link from aamount s (some i) = give_back_area from aamount i s (get_elem? s.maps i)

  unfoldable pub deallocate_memory : ℕ → ℕ → Caller pool Routine → Option (ℕ × Caller pool Routine)
  unfolding at_link start_link
  deallocate_memory from aamount s =
      if s.locked then none else some (at_link from aamount s (start_link from s.maps))
