-- ===== src/Process/MemMap/Alloc.antt =====
-- Looking an address up in a map, and taking and giving back memory of a process.
use cthulhu_os.Prelude.{
  ℕ, zero, suc, ◌+◌, ◌-◌, ◌%◌, ◌≤◌, ◌<◌, ◌≡◌, refl, inl, inr, true, Option, none, some, List, [],
  ◌∷◌, arith, leb, if◌then◌else◌, Bool-cases, u64, get_elem?, set, length, All, lt→leb, le→leb,
  leb→le, sub64, sub64-eq,
}
use cthulhu_os.Process.MemMap.{
  Area, kernel_allocated_heap_data, Hole, null, fault, hole_at, new_area, insert_at, mmap_area,
  unlink, Paging, Space, free_area, free_mmap_area, proc_dealloc_direct, take_hole,
  proc_alloc_direct, free_all, free_proc_memory, is_deallocated, find_va_hole, find_loop, user_end,
}
use cthulhu_os.Process.MemMap.Order.{IsMap, lt_of_IsMap}
use cthulhu_os.Process.MemMap.Holes.{Placed, IsUser, EndsAligned, find_va_hole-Placed}
use mathlib.Core.Option

-- An address inside an area.
abbrev pub Holds : ℕ → Area → Type 0
Holds address m = (m.vastart ≤ address) × (address < m.vaend)

-- The answer of `mmap_area`.
abbrev pub Located : ℕ → List Area → Option ℕ → Type 0
Located address ms none = All (λ m. Holds address m → ⊥) ms
Located address ms (some i) = (m : Area) × (get_elem? ms i ≡ some m) × Holds address m

above-free :
    (address lo : ℕ) (ms : List Area)
    → address < lo
    → IsMap lo ms
    → All (λ m. Holds address m → ⊥) ms
above-free address lo [] h v = tt
above-free address lo (m ∷ ms) h v =
    (λ k. omega arith, above-free address m.vaend ms (omega arith) v.2)

Located-cons :
    (address : ℕ) (m : Area) (ms : List Area) (r : Option ℕ)
    → m.vaend ≤ address
    → Located address ms r
    → Located address (m ∷ ms) (Option.map suc r)
Located-cons address m ms none h l = (λ k. omega arith, l)
Located-cons address m ms (some i) h l = l

-- In an ordered map, `mmap_area` returns the link of an area that holds the address, and NULL
-- exactly if no area of the map holds it.
pub mmap_area-Located :
    (lo : ℕ) (ms : List Area) (address : ℕ)
    → IsMap lo ms
    → Located address ms (mmap_area ms address)
unfolding mmap_area
mmap_area-Located lo [] address v = tt
mmap_area-Located lo (m ∷ ms) address v = elim (Bool-cases (leb m.vaend address)) [
  | inl e ↦ rw e (
      Located-cons address m ms (mmap_area ms address) (leb→le _ _ e)
        (mmap_area-Located m.vaend ms address v.2))
  | inr e ↦
      rw (e, le→leb address m.vaend (ground arith))
        (elim (Bool-cases (leb m.vastart address)) [
          | inl f ↦ rw f (m, refl, (leb→le _ _ f, ground arith))
          | inr f ↦ rw f ((λ k. ground arith), above-free address m.vaend ms (ground arith) v.2)
        ])
]

-- An inserted area is found by its first address.
mmap_area-insert_at :
    (lo i : ℕ) (a : Area) (ms : List Area)
    → i ≤ length ms
    → IsMap lo (insert_at i a ms)
    → a.vastart < a.vaend
    → mmap_area (insert_at i a ms) a.vastart ≡ some i
unfolding insert_at mmap_area
mmap_area-insert_at lo zero a ms h v p = rw (
  lt→leb a.vaend a.vastart p,
  le→leb a.vastart a.vaend (omega arith),
  le→leb a.vastart a.vastart (omega arith),
)
mmap_area-insert_at lo (suc i) a [] h v p = absurd (omega arith)
mmap_area-insert_at lo (suc i) a (m ∷ ms) h v p = rw (
  le→leb m.vaend a.vastart (behind m.vaend i ms v.2),
  mmap_area-insert_at m.vaend i a ms (omega arith) v.2 p,
)
  where
    behind : (lo i : ℕ) (ms : List Area) → IsMap lo (insert_at i a ms) → lo ≤ a.vastart
    behind lo zero ms v = v.0
    behind lo (suc i) [] v = v.0
    behind lo (suc i) (m ∷ ms) v = omega (arith, behind m.vaend i ms v.2)

pub get_elem?-insert_at :
    (i : ℕ) (a : Area) (ms : List Area) → i ≤ length ms → get_elem? (insert_at i a ms) i ≡ some a
unfolding insert_at
get_elem?-insert_at zero a ms h = refl
get_elem?-insert_at (suc i) a [] h = absurd (omega arith)
get_elem?-insert_at (suc i) a (m ∷ ms) h = get_elem?-insert_at i a ms (omega arith)

pub set-insert_at :
    (i : ℕ) (a b : Area) (ms : List Area)
    → i ≤ length ms
    → set (insert_at i a ms) i b ≡ insert_at i b ms
unfolding insert_at
set-insert_at zero a b ms h = refl
set-insert_at (suc i) a b [] h = absurd (omega arith)
set-insert_at (suc i) a b (m ∷ ms) h = rw (set-insert_at i a b ms (omega arith))

pub unlink-insert_at :
    (i : ℕ) (a : Area) (ms : List Area) → i ≤ length ms → unlink i (insert_at i a ms) ≡ ms
unfolding insert_at unlink
unlink-insert_at zero a ms h = refl
unlink-insert_at (suc i) a [] h = absurd (omega arith)
unlink-insert_at (suc i) a (m ∷ ms) h = rw (unlink-insert_at i a ms (omega arith))

pub IsMap-insert_at :
    (lo i : ℕ) (a b : Area) (ms : List Area)
    → a.vastart ≡ b.vastart
    → a.vaend ≡ b.vaend
    → IsMap lo (insert_at i a ms)
    → IsMap lo (insert_at i b ms)
unfolding insert_at
IsMap-insert_at lo zero a b ms p q v = rw (← p, ← q) v
IsMap-insert_at lo (suc i) a b [] p q v = rw (← p, ← q) v
IsMap-insert_at lo (suc i) a b (m ∷ ms) p q v = (v.0, v.1, IsMap-insert_at m.vaend i a b ms p q v.2)

pub insert_at-lt :
    (lo i : ℕ) (a : Area) (ms : List Area)
    → IsMap lo (insert_at i a ms)
    → i ≤ length ms
    → a.vaend < u64
unfolding insert_at
insert_at-lt lo zero a ms v h = lt_of_IsMap a.vaend ms v.2
insert_at-lt lo (suc i) a [] v h = absurd (omega arith)
insert_at-lt lo (suc i) a (m ∷ ms) v h = insert_at-lt m.vaend i a ms v.2 (omega arith)

module _ (paging : Paging) where
  open paging use {allocate, deallocate}

  -- The area that `proc_alloc_direct` leaves in the map.
  abbrev pub kernel_area : ℕ → ℕ → Area
  kernel_area a size = record (new_area a (a + size)) { mtype = kernel_allocated_heap_data }

  -- An allocation at a page boundary: the map stays ordered, the pages come from `allocate`, and
  -- `proc_dealloc_direct` of its address undoes it.
  pub record Allocated (size : ℕ) (s : Space paging) (r : Option (ℕ × Space paging)) : Type 0 where
    pub address : ℕ
    pub after : Space paging
    pub result : r ≡ some (address, after)
    pub aligned : address % 0x1000 ≡ 0
    pub ordered : IsMap 0x1000 after.maps
    pub backed : after.mem ≡ (allocate address size s.mem).1
    pub returned :
        proc_dealloc_direct paging address after
        ≡ some (record s {
          mem = deallocate address size after.mem;
          freed = kernel_area address size ∷ s.freed;
        })

  take_hole-Allocated :
      (size : ℕ) (s : Space paging) (h : Hole)
      → 0 < size
      → Placed size 0x1000 s.maps h
      → Allocated size s (take_hole paging size h s)
  unfolding take_hole proc_dealloc_direct free_mmap_area free_area Option.bind
  take_hole-Allocated size s null pos p = absurd p
  take_hole-Allocated size s fault pos p = absurd p
  take_hole-Allocated size s (hole_at i ms) pos (a, e, h, z, v) =
      let area : Area = new_area a (a + size) in
      let w : IsMap 0x1000 (insert_at i area s.maps) = rw e at v in
      let w' : IsMap 0x1000 (insert_at i (kernel_area a size) s.maps) =
        IsMap-insert_at 0x1000 i area (kernel_area a size) s.maps refl refl w in
      let small : a + size < u64 = insert_at-lt 0x1000 i area s.maps w h in
      rw
        (e, get_elem?-insert_at i area s.maps h, set-insert_at i area (kernel_area a size) s.maps h)
        record {
          address = a;
          after = record {
            maps = insert_at i (kernel_area a size) s.maps;
            mem = (allocate a size s.mem).1;
            freed = s.freed;
          };
          result = refl;
          aligned = z;
          ordered = w';
          backed = refl;
          returned =
              rw
                (
                  mmap_area-insert_at 0x1000 i (kernel_area a size) s.maps h w' (omega arith),
                  get_elem?-insert_at i (kernel_area a size) s.maps h,
                  unlink-insert_at i (kernel_area a size) s.maps h,
                  sub64-eq (a + size) a (omega arith) small,
                )
                (let e : a + size - a ≡ size = omega arith in rw e);
        }

  -- In a process whose areas end at page boundaries in the user half, if the search for a hole
  -- reaches a gap of at least `size` bytes, `proc_alloc_direct` of `size > 0` bytes returns a page
  -- boundary, asks `allocate` for exactly those bytes and keeps the map ordered; and
  -- `proc_dealloc_direct` of the result gives exactly those bytes to `deallocate`, frees the area's
  -- record and restores the map.
  pub proc_alloc_direct-Allocated :
      (random : ℕ → ℕ) (size : ℕ) (s : Space paging)
      → ((d : ℕ) → 0 < d → random d < d)
      → IsMap 0x1000 s.maps
      → IsUser s.maps
      → EndsAligned 0x1000 s.maps
      → 0 < size
      → size + 0x1000 < u64
      → size ≤ (find_loop (size + 0x1000) 0x1000 s.maps user_end).2
      → Allocated size s (proc_alloc_direct paging true random size s)
  unfolding proc_alloc_direct
  proc_alloc_direct-Allocated random size s below v u ends pos small fits =
      take_hole-Allocated size s (find_va_hole true random s.maps size 0x1000) pos
        (find_va_hole-Placed random s.maps size 0x1000 below v u ends (omega arith) refl small fits)

  -- What `free_proc_memory` does with the areas in order.
  pub give_back : List Area → paging.Mem → paging.Mem
  unfolding is_deallocated
  give_back [] mem = mem
  give_back (m ∷ ms) mem =
      give_back ms
        (if is_deallocated m.mtype then deallocate m.vastart (sub64 m.vaend m.vastart) mem else mem)

  free_all-give_back :
      (ms : List Area) (s : Space paging)
      → s.maps ≡ ms
      → ((free_all paging ms s).maps ≡ []) × ((free_all paging ms s).mem ≡ give_back ms s.mem)
  unfolding free_all free_area give_back unlink
  free_all-give_back [] s e = (e, refl)
  free_all-give_back (m ∷ ms) s e = free_all-give_back ms (free_area paging 0 m s) (rw e)

  -- `free_proc_memory` leaves no area in the map, and gives to `deallocate`, from the first area to
  -- the last, exactly the bytes of those that are not `nondealloc_map`.
  pub free_proc_memory-give_back :
      (s : Space paging)
      → ((free_proc_memory paging s).maps ≡ [])
        × ((free_proc_memory paging s).mem ≡ give_back s.maps s.mem)
  unfolding free_proc_memory
  free_proc_memory-give_back s = free_all-give_back s.maps s refl
