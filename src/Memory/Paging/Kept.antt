-- ===== src/Memory/Paging/Kept.antt =====
-- `mem_change_type` and the pages that are present.
use cthulhu_os.Prelude.{
  ℕ, zero, suc, ◌+◌, ◌*◌, ◌/◌, ◌≤◌, ltb, add64, ◌≡◌, ◌≢◌, refl, sym, ap, ◌∙◌, inl, inr, ◌⊎◌, Bool,
  true, false, Option, none, some, [], Bool-cases, arith,
}
use cthulhu_os.Memory.Frames.{align}
use cthulhu_os.Memory.Paging.{
  FramePool, Memory, present, path, table, set_word, get_page, page, allocated, align_page_up,
}
use cthulhu_os.Memory.Paging.Walk.{
  Owners, size, down_to, word_of, entry, Extends, down_to-owner, onto,
}
use cthulhu_os.Memory.Paging.Grow.{eq_or_ne}
use cthulhu_os.Memory.Paging.Put.{Put, Put-Down, Put-others}
use cthulhu_os.Memory.Paging.Tree.{Tables, walk-Walked}
use cthulhu_os.Memory.Paging.Back.{page-entry}
use cthulhu_os.Memory.Paging.Change.{
  ChangeType, change_flag, change_page, change_loop, mem_change_type,
}
use mathlib.Core.Option
use mathlib.Core.Option.{some-ne-none}

module _ (pool : FramePool) where
  -- A fault for want of a table, or a memory in which every page that was present is what it was.
  abbrev pub Kept : ℕ → Memory pool → Option (Memory pool) → Type 0
  Kept cr3 m none = Unit
  Kept cr3 m (some m') =
      (own' : Owners) × Tables pool (align cr3) own' m'
      × ((v : ℕ) → allocated pool v cr3 m ≡ true → page pool v cr3 m' ≡ page pool v cr3 m)

  change_found :
      (cr3 : ℕ) (own own' : Owners) (change_type : ChangeType) (new_value : Bool) (addr u : ℕ)
      (m m' : Memory pool)
      → Tables pool (align cr3) own m
      → Tables pool (align cr3) own' m'
      → Extends own m.words own' m'.words
      → down_to m'.words (align cr3) (path addr) ≡ some u
      → Kept cr3 m (change_page pool change_type new_value addr (some u, m'))
  unfolding change_page path allocated
  change_found cr3 own own' change_type new_value addr u m m' v0 v ext at =
      elim (Bool-cases (present (m'.words u (table addr)))) [
        | inl is_there ↦ rw is_there (own', v, λ w h. same w)
        | inr not_there ↦ rw not_there (
          own',
          record {
            root = v.root;
            down = Put-Down own' m'.words words' u (table addr) e put v.down;
            valid = v.valid;
            spare = v.spare;
          },
          λ w h.
              page-entry pool w cr3 (record m' { words = words' })
              ∙ Put-others own' m'.words words' u (table addr) e (align cr3) (table w) (path addr)
                  (path w) [] put v.down v.root at refl (differs w h not_there)
              ∙ sym (page-entry pool w cr3 m')
              ∙ same w,
        )
      ]
    where
      same : (w : ℕ) → page pool w cr3 m' ≡ page pool w cr3 m
      same w =
          page-entry pool w cr3 m'
          ∙ ext.same (align cr3) (table w) (path w) [] v0.root
          ∙ sym (page-entry pool w cr3 m)

      e : ℕ
      e = change_flag change_type new_value (m'.words u (table addr))

      words' : ℕ → ℕ → ℕ
      words' = set_word m'.words u (table addr) e

      put : Put own' m'.words u (table addr) e words'
      put = record {
        path = onto (path addr) [];
        last = down_to-owner own' m'.words (align cr3) u [] (path addr) v.down v.root at;
        tables = λ x y w h. refl;
      }

      differs :
          (w : ℕ)
          → allocated pool w cr3 m ≡ true
          → present (m'.words u (table addr)) ≡ false
          → (path w ≢ path addr) ⊎ (table w ≢ table addr)
      differs w h off = elim (eq_or_ne (table w) (table addr)) [
        | inr ne ↦ inr ne
        | inl t ↦ inl (λ p.
            let it : page pool w cr3 m' ≡ m'.words u (table addr) =
              page-entry pool w cr3 m'
              ∙ ap (λ q. entry m'.words (align cr3) q (table w)) p
              ∙ ap (λ o. word_of m'.words o (table w)) at
              ∙ ap (m'.words u) t in
            let clash : true ≡ false = sym h ∙ ap present (sym (same w)) ∙ ap present it ∙ off in
            absurd (ground arith))
      ]

  change_page-Kept :
      (cr3 : ℕ) (own : Owners) (change_type : ChangeType) (new_value : Bool) (addr : ℕ)
      (m : Memory pool)
      → Tables pool (align cr3) own m
      → Kept cr3 m
          (change_page pool change_type new_value addr (get_page pool addr cr3 true false m))
  unfolding change_page get_page path
  change_page-Kept cr3 own change_type new_value addr m v =
      let w = walk-Walked pool (align cr3) own false (align cr3) (path addr) [] m v v.root in
      go (get_page pool addr cr3 true false m) w.own' w.tables w.extends w.found
    where
      go :
          (r : Option ℕ × Memory pool) (own' : Owners)
          → Tables pool (align cr3) own' r.1
          → Extends own m.words own' r.1.words
          → ((u : ℕ) → r.0 ≡ some u → down_to r.1.words (align cr3) (path addr) ≡ some u)
          → Kept cr3 m (change_page pool change_type new_value addr r)
      go (none, m') own' t ext found = tt
      go (some u, m') own' t ext found =
          change_found cr3 own own' change_type new_value addr u m m' v t ext (found u refl)

  change_loop-Kept :
      (cr3 : ℕ) (own : Owners) (change_type : ChangeType) (new_value : Bool) (addr n : ℕ)
      (m : Memory pool)
      → Tables pool (align cr3) own m
      → Kept cr3 m (change_loop pool change_type new_value cr3 addr n m)
  unfolding change_loop Option.bind allocated
  change_loop-Kept cr3 own change_type new_value addr zero m v = (own, v, λ w h. refl)
  change_loop-Kept cr3 own change_type new_value addr (suc n) m v =
      go (change_page pool change_type new_value addr (get_page pool addr cr3 true false m))
        (change_page-Kept cr3 own change_type new_value addr m v)
        (λ own' m' t. change_loop-Kept cr3 own' change_type new_value (addr + 0x1000) n m' t)
    where
      chain :
          (m' : Memory pool) (r : Option (Memory pool))
          → ((w : ℕ) → allocated pool w cr3 m ≡ true → page pool w cr3 m' ≡ page pool w cr3 m)
          → Kept cr3 m' r
          → Kept cr3 m r
      chain m' none same k = tt
      chain m' (some m'') same k = (k.0, k.1, λ w h. k.2 w (ap present (same w h) ∙ h) ∙ same w h)

      go :
          (r : Option (Memory pool))
          → Kept cr3 m r
          → ((own' : Owners) (m' : Memory pool)
              → Tables pool (align cr3) own' m'
              → Kept cr3 m' (change_loop pool change_type new_value cr3 (addr + 0x1000) n m'))
          → Kept cr3 m (
              Option.bind r (λ m'. change_loop pool change_type new_value cr3 (addr + 0x1000) n m'))
      go none k rest = tt
      go (some m') k rest =
          chain m' (change_loop pool change_type new_value cr3 (addr + 0x1000) n m') k.2
            (rest k.0 m' k.1)

  change_page-ends :
      (cr3 : ℕ) (own : Owners) (change_type : ChangeType) (new_value : Bool) (addr : ℕ)
      (m : Memory pool)
      → Tables pool (align cr3) own m
      → 4 ≤ size (pool.free m.frames)
      → (m' : Memory pool) × (change_page pool change_type new_value addr
            (get_page pool addr cr3 true false m)
          ≡ some m')
        × (size (pool.free m.frames) ≤ 3 + size (pool.free m'.frames))
  unfolding change_page get_page path
  change_page-ends cr3 own change_type new_value addr m v more =
      let w = walk-Walked pool (align cr3) own false (align cr3) (path addr) [] m v v.root in
      go (get_page pool addr cr3 true false m) (w.enough (omega arith)) w.cost
    where
      go :
          (r : Option ℕ × Memory pool)
          → (u : ℕ) × (r.0 ≡ some u)
          → size (pool.free m.frames) ≤ 3 + size (pool.free r.1.frames)
          → (m' : Memory pool) × (change_page pool change_type new_value addr r ≡ some m')
            × (size (pool.free m.frames) ≤ 3 + size (pool.free m'.frames))
      go (none, m1) k c = absurd (some-ne-none _ (sym k.1))
      go (some u, m1) k c = elim (Bool-cases (present (m1.words u (table addr)))) [
        | inl is_there ↦ rw is_there (_, refl, c)
        | inr not_there ↦ rw not_there (_, refl, c)
      ]

  change_loop-ends :
      (cr3 : ℕ) (own : Owners) (change_type : ChangeType) (new_value : Bool) (addr n : ℕ)
      (m : Memory pool)
      → Tables pool (align cr3) own m
      → 4 * n ≤ size (pool.free m.frames)
      → (m' : Memory pool) × (change_loop pool change_type new_value cr3 addr n m ≡ some m')
  unfolding change_loop Option.bind
  change_loop-ends cr3 own change_type new_value addr zero m v more = (m, refl)
  change_loop-ends cr3 own change_type new_value addr (suc n) m v more =
      let (m1, e, c) = change_page-ends cr3 own change_type new_value addr m v (omega arith) in
      let k = rw e at (change_page-Kept cr3 own change_type new_value addr m v) in
      let (m2, f) =
        change_loop-ends cr3 k.0 change_type new_value (addr + 0x1000) n m1 k.1 (omega arith) in
      (m2, rw e f)

  -- With four free frames for each page of the range `mem_change_type` does not fault, and every page
  -- that was present is what it was: it changes the flag of none of them.
  pub mem_change_type-Kept :
      (cr3 : ℕ) (own : Owners) (from amount : ℕ) (change_type : ChangeType) (new_value : Bool)
      (m : Memory pool)
      → Tables pool (align cr3) own m
      → 4 * (align_page_up amount / 0x1000) ≤ size (pool.free m.frames)
      → (m' : Memory pool) × (mem_change_type pool from amount change_type new_value cr3 m
          ≡ some m')
        × ((v : ℕ) → allocated pool v cr3 m ≡ true → page pool v cr3 m' ≡ page pool v cr3 m)
        × (own' : Owners) × Tables pool (align cr3) own' m'
  unfolding mem_change_type
  mem_change_type-Kept cr3 own from amount change_type new_value m v more =
      let all = align_page_up amount / 0x1000 in
      elim (Bool-cases (ltb from (add64 from (align_page_up amount)))) [
        | inl e ↦ rw e (go all more)
        | inr e ↦ rw e (go 0 (omega arith))
      ]
    where
      go :
          (n : ℕ)
          → 4 * n ≤ size (pool.free m.frames)
          → (m' : Memory pool) × (change_loop pool change_type new_value cr3 from n m ≡ some m')
            × ((w : ℕ) → allocated pool w cr3 m ≡ true → page pool w cr3 m' ≡ page pool w cr3 m)
            × (own' : Owners) × Tables pool (align cr3) own' m'
      go n h =
          let (m', e) = change_loop-ends cr3 own change_type new_value from n m v h in
          let k = rw e at (change_loop-Kept cr3 own change_type new_value from n m v) in
          (m', e, k.2, k.0, k.1)
