-- ===== src/Memory/Frames/Make.antt =====
-- `make_pool`: the section that a range of memory becomes.
use cthulhu_os.Prelude.{
  ℕ, zero, suc, ◌+◌, ◌*◌, ◌^◌, ◌≤◌, ◌<◌, ◌≡◌, ◌⊎◌, ◌==◌, List, [], ◌∷◌, refl, inl, inr, false, some,
  arith, get_elem?, Bool-cases, ltb,
}
use cthulhu_os.Memory.Frames.{
  align, count_frames, first_frame, make_elements, make_infos, make_head, make_pool,
}
use cthulhu_os.Memory.Frames.Free.{Absent, FreeList, IsSection}

make_elements-get_elem? :
    (old : ℕ → ℕ) (start i n k j : ℕ)
    → j ≡ i + k
    → k < n
    → ltb (start + j * 0x1000) 0x200000 ≡ false
    → get_elem? (make_elements old start i n) k
      ≡ some (record { frame_address = start + j * 0x1000; array_ord = j })
unfolding make_elements
make_elements-get_elem? old start i zero k j e h low = absurd (omega arith)
make_elements-get_elem? old start i (suc n) zero j e h low =
    let e' : i ≡ j = omega arith in rw (e', low) refl
make_elements-get_elem? old start i (suc n) (suc k) j e h low =
    make_elements-get_elem? old start (suc i) n k j (omega arith) (omega arith) low

make_infos-get_elem? :
    (old : ℕ → ℕ) (start i n k j : ℕ)
    → j ≡ i + k
    → k < n
    → ltb (start + j * 0x1000) 0x200000 ≡ false
    → get_elem? (make_infos old start i n) k
      ≡ some (record { usage_count = 0; cow_count = 0; bound_stack_element = j })
unfolding make_infos
make_infos-get_elem? old start i zero k j e h low = absurd (omega arith)
make_infos-get_elem? old start i (suc n) zero j e h low =
    let e' : i ≡ j = omega arith in rw (e', low) refl
make_infos-get_elem? old start i (suc n) (suc k) j e h low =
    make_infos-get_elem? old start (suc i) n k j (omega arith) (omega arith) low

make_head-Absent : (start i n j : ℕ) → j < i → Absent j (make_head start i n)
unfolding make_head
make_head-Absent start i zero j h = tt
make_head-Absent start i (suc n) j h = elim (Bool-cases (ltb (start + i * 0x1000) 0x200000)) [
  | inl low ↦ rw low (make_head-Absent start (suc i) n j (omega arith))
  | inr high ↦ rw high ((omega arith), make_head-Absent start (suc i) n j (omega arith))
]

make_head-FreeList :
    (old : ℕ → ℕ) (length base i n : ℕ)
    → i + n ≡ count_frames length
    → FreeList (make_pool old length base) (make_head (first_frame base (count_frames length)) i n)
unfolding make_head make_pool
make_head-FreeList old length base i zero h = tt
make_head-FreeList old length base i (suc n) h =
    let start = first_frame base (count_frames length) in
    let more = make_head-FreeList old length base (suc i) n (omega arith) in
    let inside : i < count_frames length = omega arith in
    elim (Bool-cases (ltb (start + i * 0x1000) 0x200000)) [
      | inl low ↦ rw low more
      | inr high ↦ rw high (
        (
          record { usage_count = 0; cow_count = 0; bound_stack_element = i },
          record {
            inside = inside;
            element =
                make_elements-get_elem? old start 0 (count_frames length) i i (omega arith) inside
                  high;
            info =
                make_infos-get_elem? old start 0 (count_frames length) i i (omega arith) inside
                  high;
            bound = refl;
          },
          refl,
        ),
        make_head-Absent start (suc i) n i (omega arith),
        more,
      )
    ]

-- A number in the list.
abbrev pub IsIn : ℕ → List ℕ → Type 0
IsIn j [] = ⊥
IsIn j (i ∷ is) = (j ≡ i) ⊎ IsIn j is

make_head-holds :
    (start i n j : ℕ)
    → i ≤ j
    → j < i + n
    → 0x200000 ≤ start + j * 0x1000
    → IsIn j (make_head start i n)
unfolding make_head
make_head-holds start i zero j lo hi above = absurd (omega arith)
make_head-holds start i (suc n) j lo hi above =
    elim (Bool-cases (ltb (start + i * 0x1000) 0x200000)) [
      | inl low ↦ rw low (make_head-holds start (suc i) n j (ground arith) (omega arith) above)
      | inr high ↦ elim (Bool-cases (j == i)) [
        | inl same ↦ rw high (inl (ground arith))
        | inr other ↦
            rw high (inr (make_head-holds start (suc i) n j (ground arith) (omega arith) above))
      ]
    ]

make_head-above : (start i n j : ℕ) → IsIn j (make_head start i n) → 0x200000 ≤ start + j * 0x1000
unfolding make_head
make_head-above start i zero j h = absurd h
make_head-above start i (suc n) j h = elim (Bool-cases (ltb (start + i * 0x1000) 0x200000)) [
  | inl low ↦ make_head-above start (suc i) n j (rw low at h)
  | inr high ↦ elim (rw high at h) [
    | inl same ↦ ground arith
    | inr more ↦ make_head-above start (suc i) n j more
  ]
]

-- A range of at least one frame and its records, which is below 16 TB and ends below 2 ^ 63, becomes a
-- section: its frames stand aligned inside the range behind the records, and its free list holds
-- unused frames, each once: exactly those that do not start below 2 MB.
pub make_pool-IsSection :
    (old : ℕ → ℕ) (length base : ℕ)
    → 48 + (0x1000 + 40) ≤ length
    → length < 0x100000000000
    → base + length < 2 ^ 63
    → IsSection (make_pool old length base)
      × (base + 48 + count_frames length * 40 ≤ (make_pool old length base).start_word)
      × ((j : ℕ)
          → j < count_frames length
          → 0x200000 ≤ (make_pool old length base).start_word + j * 0x1000
          → IsIn j (make_pool old length base).head)
      × ((j : ℕ)
          → IsIn j (make_pool old length base).head
          → 0x200000 ≤ (make_pool old length base).start_word + j * 0x1000)
unfolding make_pool count_frames first_frame align
make_pool-IsSection old length base big small wrap = (
  record {
    aligned = omega arith;
    positive = omega arith;
    room = omega arith;
    small = wrap;
    few = omega arith;
    free = make_head-FreeList old length base 0 (count_frames length) (omega arith);
  },
  omega arith,
  (λ j h above. make_head-holds _ 0 (count_frames length) j (omega arith) (omega arith) above),
  λ j h. make_head-above _ 0 (count_frames length) j h,
)
