-- ===== src/Syscalls/Heap/Restored.antt =====
-- Memory that a process takes and gives back (src/kernel/syscalls/syscall_defs.cc).
use cthulhu_os.Prelude.{
  ℕ, zero, suc, ◌+◌, ◌%◌, ◌≤◌, ◌<◌, ◌≡◌, ◌≢◌, refl, sym, inl, inr, Bool, true, false, Option, none,
  some, List, [], ◌∷◌, ◌==◌, add64, add64-eq, u64, All, length, get_elem?, Bool-cases, arith,
  if◌then◌else◌,
}
use mathlib.Core.Option
use mathlib.Core.Path.{subst}
use cthulhu_os.Process.MemMap.{
  Area, heap_data, Hole, null, hole_at, fault, new_area, insert_at, unlink, find_va_hole, find_loop,
  user_end,
}
use cthulhu_os.Process.MemMap.Order.{IsMap}
use cthulhu_os.Process.MemMap.Holes.{Placed, IsUser, EndsAligned, find_va_hole-Placed}
use cthulhu_os.Process.MemMap.Alloc.{
  get_elem?-insert_at, set-insert_at, unlink-insert_at, IsMap-insert_at, insert_at-lt,
}
use cthulhu_os.Memory.Paging.{FramePool, Memory, deallocate}
use cthulhu_os.Syscalls.{Syscall, Continuation}
use cthulhu_os.Syscalls.Heap.{
  Caller, start_link, allocate_memory_cont, in_hole, allocate_memory, is_heap_data, give_back_area,
  at_link, deallocate_memory,
}

if_false {ℓ} : {A : Type ℓ} (b : Bool) (x y : A) → b ≡ false → (if b then x else y) ≡ y
if_false b x y h = rw h refl

-- No area is empty.
abbrev pub NonEmpty : List Area → Type 0
NonEmpty ms = All (λ (m : Area). m.vastart < m.vaend) ms

start_link-insert_at :
    (lo i : ℕ) (a : Area) (ms : List Area)
    → i ≤ length ms
    → NonEmpty ms
    → IsMap lo (insert_at i a ms)
    → start_link a.vastart (insert_at i a ms) ≡ some i
unfolding start_link insert_at
start_link-insert_at lo zero a ms h ne v = ground arith
start_link-insert_at lo (suc i) a [] h ne v = absurd (omega arith)
start_link-insert_at lo (suc i) a (m ∷ ms) h ne v =
    let other : (m.vastart == a.vastart) ≡ false = ground (arith, ne.0, behind m.vaend i ms v.2) in
    rw (other, start_link-insert_at m.vaend i a ms (omega arith) ne.1 v.2) refl
  where
    behind : (lo i : ℕ) (ms : List Area) → IsMap lo (insert_at i a ms) → lo ≤ a.vastart
    behind lo zero ms v = v.0
    behind lo (suc i) [] v = v.0
    behind lo (suc i) (m ∷ ms) v = omega (arith, behind m.vaend i ms v.2)

-- The area of `size` bytes that `allocate_memory` leaves in the map.
abbrev pub heap_area : ℕ → ℕ → Area
heap_area a size = record { vastart = a; vaend = a + size; mtype = heap_data; count = 1 }

module _ (pool : FramePool) {Routine : Type 0} (mirror : Bool) (old : ℕ → ℕ) (cr3 : ℕ)
    (cont : Syscall Routine) where
  -- A piece of memory at a page boundary, which `deallocate_memory` takes back whatever has been
  -- stored in the page tables, in the continuation and in the list of freed areas since.
  pub record Heap (size : ℕ) (s : Caller pool Routine) (r : Option (ℕ × Caller pool Routine))
      : Type 1 where
    pub address : ℕ
    pub after : Caller pool Routine
    pub result : r ≡ some (address, after)
    pub aligned : address % 0x1000 ≡ 0
    pub ordered : IsMap 0x1000 after.maps
    pub unlocked : after.locked ≡ false
    pub returned :
        (memory' : Memory pool) (freed' : List Area) (c : Continuation Routine)
        → deallocate_memory pool mirror old cr3 cont address size
            (record after { memory = memory'; freed = freed'; continuation = c; locked = false })
          ≡ some (
            0,
            record after {
              maps = s.maps;
              memory = deallocate pool address size cr3 memory';
              freed = heap_area address size ∷ freed';
              continuation = c;
              locked = false;
            },
          )

  in_hole-Heap :
      (size : ℕ) (s : Caller pool Routine) (h : Hole)
      → NonEmpty s.maps
      → Placed size 0x1000 s.maps h
      → Heap size s (in_hole pool mirror old cr3 cont size h s)
  unfolding in_hole deallocate_memory at_link give_back_area is_heap_data
  in_hole-Heap size s null ne p = absurd p
  in_hole-Heap size s fault ne p = absurd p
  in_hole-Heap size s (hole_at i ms) ne (a, e, h, z, v) =
      let area : Area = new_area a (a + size) in
      let w : IsMap 0x1000 (insert_at i area s.maps) = rw e at v in
      let w' : IsMap 0x1000 (insert_at i (heap_area a size) s.maps) =
        IsMap-insert_at 0x1000 i area (heap_area a size) s.maps refl refl w in
      let small : a + size < u64 = insert_at-lt 0x1000 i area s.maps w h in
      let end : (a + size == add64 a size) ≡ true = ground (arith, add64-eq a size small) in
      rw (e, get_elem?-insert_at i area s.maps h, set-insert_at i area (heap_area a size) s.maps h)
        record {
          address = a;
          after =
              (allocate_memory_cont pool mirror old cr3 cont a size a
                (record s { maps = insert_at i (heap_area a size) s.maps; locked = false })).1;
          result = refl;
          aligned = z;
          ordered = w';
          unlocked = refl;
          returned = λ memory' freed' c.
              rw
                (
                  start_link-insert_at 0x1000 i (heap_area a size) s.maps h ne w',
                  get_elem?-insert_at i (heap_area a size) s.maps h,
                  end,
                  unlink-insert_at i (heap_area a size) s.maps h,
                )
                refl;
        }

  -- Where no lock is held, in a process whose areas are not empty and end at page boundaries in the user half, if the search
  -- for a hole reaches a gap of at least `size` bytes, `allocate_memory` returns a page boundary with
  -- the map in order, and `deallocate_memory` of the result and the same size answers 0, gives exactly
  -- those bytes to `deallocate`, restores the map and leaves no lock held.
  pub allocate_memory-Heap :
      (random : ℕ → ℕ) (size : ℕ) (s : Caller pool Routine)
      → s.locked ≡ false
      → ((d : ℕ) → 0 < d → random d < d)
      → NonEmpty s.maps
      → IsMap 0x1000 s.maps
      → IsUser s.maps
      → EndsAligned 0x1000 s.maps
      → size + 0x1000 < u64
      → size ≤ (find_loop (size + 0x1000) 0x1000 s.maps user_end).2
      → Heap size s (allocate_memory pool mirror old cr3 cont true random size s)
  unfolding allocate_memory
  allocate_memory-Heap random size s free below ne v u ends small fits =
      subst (Heap size s) (sym (if_false s.locked none _ free)) (
        in_hole-Heap size s (find_va_hole true random s.maps size 0x1000) ne (
          find_va_hole-Placed random s.maps size 0x1000 below v u ends (omega arith) refl small
            fits))

  -- Why `deallocate_memory` refuses an area.
  pub data Refusal (from aamount : ℕ) (maps : List Area) : Type 0 where
    no_area : All (λ (m : Area). m.vastart ≢ from) maps → Refusal from aamount maps
    other_end :
        (i : ℕ) (a : Area)
        → get_elem? maps i ≡ some a
        → a.vastart ≡ from
        → a.vaend ≢ add64 from aamount
        → Refusal from aamount maps
    no_heap :
        (i : ℕ) (a : Area)
        → get_elem? maps i ≡ some a
        → a.vastart ≡ from
        → is_heap_data a.mtype ≡ false
        → Refusal from aamount maps

  pub data Answered (from aamount : ℕ) (s : Caller pool Routine)
      : Option (ℕ × Caller pool Routine) → Type 0 where
    refused :
        Refusal from aamount s.maps
        → ((malloc_ok : Bool) (random : ℕ → ℕ) (size : ℕ)
            → allocate_memory pool mirror old cr3 cont malloc_ok random size
                (record s { locked = true })
              ≡ none)
        → ((from' aamount' : ℕ)
            → deallocate_memory pool mirror old cr3 cont from' aamount' (record s { locked = true })
              ≡ none)
        → Answered from aamount s (some (1, record s { locked = true }))
    taken :
        (i : ℕ) (a : Area)
        → get_elem? s.maps i ≡ some a
        → a.vastart ≡ from
        → a.vaend ≡ add64 from aamount
        → is_heap_data a.mtype ≡ true
        → Answered from aamount s (
            some (
              0,
              record s {
                maps = unlink i s.maps;
                memory = deallocate pool a.vastart aamount cr3 s.memory;
                freed = a ∷ s.freed;
                locked = false;
              },
            ))

  -- What the loop has found.
  abbrev Linked : ℕ → List Area → Option ℕ → Type 0
  Linked from ms none = All (λ (m : Area). m.vastart ≢ from) ms
  Linked from ms (some i) = (a : Area) × (get_elem? ms i ≡ some a) × (a.vastart ≡ from)

  start_link-Linked : (from : ℕ) (ms : List Area) → Linked from ms (start_link from ms)
  unfolding start_link
  start_link-Linked from [] = tt
  start_link-Linked from (m ∷ ms) = elim (Bool-cases (m.vastart == from)) [
    | inl h ↦ rw h (m, refl, ground arith)
    | inr h ↦ rw h (later (start_link from ms) (start_link-Linked from ms) (ground arith))
  ]
    where
      later :
          (r : Option ℕ)
          → Linked from ms r
          → m.vastart ≢ from
          → Linked from (m ∷ ms) (Option.map suc r)
      later none l ne = (ne, l)
      later (some i) l ne = l

  not_taken :
      {from aamount : ℕ} {s : Caller pool Routine}
      → Refusal from aamount s.maps
      → Answered from aamount s (some (1, record s { locked = true }))
  unfolding allocate_memory deallocate_memory
  not_taken r = refused r (λ malloc_ok random size. refl) (λ from aamount. refl)

  -- Where no lock is held, `deallocate_memory` takes back exactly an area of heap data with the start and the end that it is
  -- told, and then answers 0 without a lock; otherwise it answers 1, changes neither the map nor the
  -- tables, and keeps the locks, so that neither `allocate_memory` nor `deallocate_memory` returns from
  -- then on.
  pub deallocate_memory-Answered :
      (from aamount : ℕ) (s : Caller pool Routine)
      → s.locked ≡ false
      → Answered from aamount s (deallocate_memory pool mirror old cr3 cont from aamount s)
  unfolding deallocate_memory at_link give_back_area
  deallocate_memory-Answered from aamount s free =
      subst (Answered from aamount s) (sym (if_false s.locked none _ free))
        (go (start_link from s.maps) (start_link-Linked from s.maps))
    where
      go :
          (r : Option ℕ)
          → Linked from s.maps r
          → Answered from aamount s (some (at_link pool mirror old cr3 cont from aamount s r))
      go none l = not_taken (no_area l)
      go (some i) (a, e, f) = elim (Bool-cases (a.vaend == add64 from aamount)) [
        | inr h ↦ rw (e, h) (not_taken (other_end i a e f (ground arith)))
        | inl h ↦ elim (Bool-cases (is_heap_data a.mtype)) [
          | inr k ↦ rw (e, h, k) (not_taken (no_heap i a e f k))
          | inl k ↦ rw (e, h, k) (taken i a e f (ground arith) k)
        ]
      ]
