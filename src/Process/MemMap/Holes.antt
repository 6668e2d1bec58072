-- ===== src/Process/MemMap/Holes.antt =====
-- The place that `find_va_hole` chooses.
use cthulhu_os.Prelude.{
  ℕ, ◌+◌, ◌-◌, ◌*◌, ◌/◌, ◌%◌, ◌≤◌, ◌<◌, ◌≡◌, refl, inl, inr, true, false, List, [], ◌∷◌, arith, leb,
  ◌==◌, if◌then◌else◌, Bool-cases, add64, sub64, u64, sub64-eq, add64-eq, All, length,
}
use cthulhu_os.Process.MemMap.{
  Area, Hole, hole_at, new_area, insert_at, link_area, align_up, align_down, find_loop,
  find_va_hole, hole_offset, choose_place, user_end,
}
use native.Mathlib.Nat.{div-add-mod, mul-mod_right, mod-le, add-mod, zero-mod}
use cthulhu_os.Process.MemMap.Order.{IsMap}

-- Every area ends in the user half.
abbrev pub IsUser : List Area → Type 0
IsUser = All (λ m. m.vaend ≤ user_end)

-- Every area ends at a multiple of `align`.
abbrev pub EndsAligned : ℕ → List Area → Type 0
EndsAligned align = All (λ m. m.vaend % align ≡ 0)

-- What the search has found: `start` is a place behind which `hole` bytes are free.
record Found (lo : ℕ) (ms : List Area) (r : ℕ × ℕ × ℕ) : Type 0 where
  room : r.1 + r.2 ≤ user_end + 0x1000
  link : r.0 ≤ length ms
  fits : (s e : ℕ) → r.1 ≤ s → s ≤ e → e ≤ r.1 + r.2 → IsMap lo (insert_at r.0 (new_area s e) ms)

find_loop-Found :
    (need lo : ℕ) (ms : List Area) (hole : ℕ)
    → IsMap lo ms
    → IsUser ms
    → lo + hole ≤ user_end + 0x1000
    → Found lo ms (find_loop need lo ms hole)
unfolding find_loop insert_at
find_loop-Found need lo [] hole v u b = record {
  room = b;
  link = omega arith;
  fits = λ s e p q r. (p, q, omega arith);
}
find_loop-Found need lo (m ∷ ms) hole v u b =
    let gap : sub64 m.vastart lo ≡ m.vastart - lo = omega arith in
    let rest : sub64 user_end m.vaend ≡ user_end - m.vaend = omega arith in
    elim (Bool-cases (leb need (m.vastart - lo))) [
      | inl e ↦
          rw (gap, e)
            (record {
              room = omega arith;
              link = omega arith;
              fits = λ s t p q r. (p, q, (omega arith, v.1, v.2));
            })
      | inr e ↦
          rw (gap, rest, e)
            (let ih = find_loop-Found need m.vaend ms (user_end - m.vaend) v.2 u.1 (omega arith) in
              record {
                room = ih.room;
                link = omega (arith, ih.link);
                fits = λ s t p q r. (v.0, v.1, ih.fits s t p q r);
              })
    ]

find_loop-aligned :
    (align need lo : ℕ) (ms : List Area) (hole : ℕ)
    → EndsAligned align ms
    → lo % align ≡ 0
    → (find_loop need lo ms hole).1 % align ≡ 0
unfolding find_loop
find_loop-aligned align need lo [] hole a z = z
find_loop-aligned align need lo (m ∷ ms) hole a z =
    ground (arith, find_loop-aligned align need m.vaend ms (sub64 user_end m.vaend) a.1 a.0)

align_down-mod : (a b : ℕ) → align_down a b % b ≡ 0
unfolding align_down
align_down-mod a b =
    let e : a - a % b ≡ b * (a / b) = omega (arith, div-add-mod a b) in
    rw e (mul-mod_right b (a / b))

align_up_aligned : (a b : ℕ) → a % b ≡ 0 → align_up a b ≡ a
unfolding align_up
align_up_aligned a b h = ground arith

hole_offset-le :
    (random : ℕ → ℕ) (size align hole : ℕ)
    → ((d : ℕ) → 0 < d → random d < d)
    → size ≤ hole
    → hole < u64
    → hole_offset random size align hole + size ≤ hole
unfolding hole_offset align_down
hole_offset-le random size align hole below h k =
    rw (sub64-eq hole size h k) (elim (Bool-cases (hole - size == 0)) [
      | inl z ↦ rw z (omega (arith, mod-le 0 align))
      | inr z ↦
          rw z
            (omega (arith, below (hole - size) (ground arith), mod-le (random (hole - size)) align))
    ])

-- What `find_va_hole` returns: a place of `size` bytes at a multiple of `align` that keeps the
-- order of the map.
abbrev pub Placed : ℕ → ℕ → List Area → Hole → Type 0
Placed size align ms (hole_at i ms') =
    (a : ℕ) × (ms' ≡ insert_at i (new_area a (a + size)) ms)
    × (i ≤ length ms)
    × (a % align ≡ 0)
    × IsMap 0x1000 ms'
Placed size align ms _ = ⊥

place-Placed :
    (random : ℕ → ℕ) (ms : List Area) (size align : ℕ) (r : ℕ × ℕ × ℕ)
    → ((d : ℕ) → 0 < d → random d < d)
    → Found 0x1000 ms r
    → r.1 % align ≡ 0
    → 0 < align
    → size ≤ r.2
    → Placed size align ms (choose_place true random ms size align r)
unfolding choose_place link_area hole_offset
place-Placed random ms size align (i, start, hole) below found even pos fits =
    let offset = hole_offset random size align hole in
    let room : offset + size ≤ hole =
      hole_offset-le random size align hole below fits (omega (arith, found.room)) in
    let first : add64 start offset ≡ start + offset = omega (arith, found.room) in
    let last : add64 (add64 start size) offset ≡ start + offset + size =
      omega (arith, found.room) in
    let some_align : (align == 0) ≡ false = ground arith in
    let start_even : (start + offset) % align ≡ 0 =
      rw
        (
          add-mod,
          even,
          align_down-mod (if sub64 hole size == 0 then 0 else random (sub64 hole size)) align,
        )
        (zero-mod align) in
    rw (align_up_aligned start align even, first, last, some_align)
      (
        start + offset,
        refl,
        found.link,
        start_even,
        found.fits (start + offset) (start + offset + size) (omega arith) (omega arith)
            (omega arith),
      )

pub find_va_hole-Placed :
    (random : ℕ → ℕ) (ms : List Area) (size align : ℕ)
    → ((d : ℕ) → 0 < d → random d < d)
    → IsMap 0x1000 ms
    → IsUser ms
    → EndsAligned align ms
    → 0 < align
    → 0x1000 % align ≡ 0
    → size + align < u64
    → size ≤ (find_loop (size + align) 0x1000 ms user_end).2
    → Placed size align ms (find_va_hole true random ms size align)
unfolding find_va_hole
find_va_hole-Placed random ms size align below v u ends pos page small fits =
    rw (add64-eq size align small) (
      place-Placed random ms size align (find_loop (size + align) 0x1000 ms user_end) below
        (find_loop-Found (size + align) 0x1000 ms user_end v u (omega arith))
        (find_loop-aligned align (size + align) 0x1000 ms user_end ends page) pos fits)
