-- ===== src/Memory/Paging/Range.antt =====
-- `allocate`: every page of the range is backed, and nothing else changes.
use cthulhu_os.Prelude.{
  ℕ, zero, suc, ◌+◌, ◌-◌, ◌*◌, ◌/◌, ◌%◌, ◌^◌, ◌≤◌, ◌<◌, ◌≡◌, refl, sym, ap, ◌∙◌, ◌≢◌, inl, inr,
  Bool, true, false, not, arith, if◌then◌else◌, Bool-cases, ltb, u64, add64,
}
use cthulhu_os.Memory.Frames.{align}
use cthulhu_os.Memory.Paging.{
  FramePool, Memory, present, path, table, get_page, page, allocated, back_page, allocate_loop,
  align_page_up, allocate, deallocate,
}
use cthulhu_os.Memory.Paging.Entry.{page_number, path-page}
use cthulhu_os.Memory.Paging.Walk.{Owners, entry, size}
use cthulhu_os.Memory.Paging.Grow.{eq_or_ne}
use cthulhu_os.Memory.Paging.Tree.{Tables}
use cthulhu_os.Memory.Paging.Back.{page-entry, back_page-Backed}

-- The number of pages that `allocate` goes over.
abbrev pages : ℕ → ℕ → ℕ
pages from amount = (amount + from % 0x1000 + 0xFFF) / 0x1000

-- As the code computes it.
pages-lem :
    (from amount : ℕ)
    → 0 < amount
    → from + amount + 0x2000 < u64
    → (let amount' = align_page_up (add64 amount (from - align from)) in
        (if ltb (align from) (add64 (align from) amount') then amount' / 0x1000 else 0)
        ≡ pages from amount)
unfolding align_page_up align
pages-lem from amount pos room =
    let small : add64 amount (from - (from - from % 0x1000)) ≡ amount + from % 0x1000 =
      omega arith in
    rw small (ground arith)

page_within :
    (from amount v : ℕ)
    → from ≤ v
    → v < from + amount
    → ((v - align from) / 0x1000 < pages from amount)
      × (page_number v ≡ page_number (align from + (v - align from) / 0x1000 * 0x1000))
unfolding align
page_within from amount v lo hi = (omega arith, omega arith)

-- Every page that the loop goes over has an address of the range.
within :
    (from amount k : ℕ)
    → k < pages from amount
    → 0 < amount
    → (w : ℕ) × (from ≤ w)
      × (w < from + amount)
      × (page_number w ≡ page_number (align from + k * 0x1000))
unfolding align
within from amount k lt pos = elim (eq_or_ne k 0) [
  | inl z ↦ (from, omega arith, omega arith, omega arith)
  | inr nz ↦ (from - from % 0x1000 + k * 0x1000, omega arith, omega arith, omega arith)
]

module _ (pool : FramePool) where
  allocated-page :
      (v v' cr3 : ℕ) (m : Memory pool)
      → page_number v ≡ page_number v'
      → allocated pool v cr3 m ≡ allocated pool v' cr3 m
  unfolding allocated
  allocated-page v v' cr3 m h =
      let e = path-page v v' h in
      ap present (
        page-entry pool v cr3 m
        ∙ ap (λ p. entry m.words (align cr3) p (table v)) e.0
        ∙ ap (λ t. entry m.words (align cr3) (path v') t) e.1
        ∙ sym (page-entry pool v' cr3 m))

  later_page :
      (addr n j : ℕ)
      → suc n ≤ 2 ^ 36
      → j < n
      → page_number addr ≢ page_number (addr + 0x1000 + j * 0x1000)
  later_page addr n j small lt = λ e. omega arith

  first_page : (addr : ℕ) → page_number addr ≡ page_number (addr + 0 * 0x1000)
  first_page addr = omega arith

  next_page :
      (addr j : ℕ) → page_number (addr + 0x1000 + j * 0x1000) ≡ page_number (addr + suc j * 0x1000)
  next_page addr j = omega arith

  -- What the loop of `allocate` does.
  record Range (cr3 addr n : ℕ) (m : Memory pool) (r : Bool × ℕ × Memory pool) : Type 0 where
    own' : Owners
    tables : Tables pool (align cr3) own' r.2
    done : r.0 ≡ true → (k : ℕ) → k < n → allocated pool (addr + k * 0x1000) cr3 r.2 ≡ true
    others :
        (v : ℕ)
        → ((k : ℕ) → k < n → page_number v ≢ page_number (addr + k * 0x1000))
        → page pool v cr3 r.2 ≡ page pool v cr3 m
    enough :
        ((k : ℕ) → k < n → allocated pool (addr + k * 0x1000) cr3 m ≡ false)
        → 4 * n ≤ size (pool.free m.frames)
        → r.0 ≡ true

  allocate_loop-Range :
      (cr3 : ℕ) (own : Owners) (mirror kernel readonly : Bool) (addr n : ℕ) (m : Memory pool)
      → n ≤ 2 ^ 36
      → Tables pool (align cr3) own m
      → Range cr3 addr n m (allocate_loop pool mirror kernel readonly cr3 addr n m)
  unfolding allocate_loop allocated
  allocate_loop-Range cr3 own mirror kernel readonly addr zero m small v = record {
    own' = own;
    tables = v;
    done = λ h k lt. absurd (omega arith);
    others = λ v' ne. refl;
    enough = λ new more. refl;
  }
  allocate_loop-Range cr3 own mirror kernel readonly addr (suc n) m small v =
      let b = back_page-Backed pool cr3 own mirror kernel readonly addr m v in
      let r =
        back_page pool mirror kernel readonly (get_page pool addr cr3 true (not kernel) m) addr in
      let m2 = (allocate_loop pool mirror kernel readonly cr3 (addr + 0x1000) n r.1).2 in
      let ih =
        allocate_loop-Range cr3 b.own' mirror kernel readonly (addr + 0x1000) n r.1 (omega arith)
          b.tables in
      elim (Bool-cases r.0) [
        | inl yes_done ↦ rw yes_done (record {
          own' = ih.own';
          tables = ih.tables;
          done = λ h k lt. elim (eq_or_ne k 0) [
            | inl z ↦
                let same : addr + k * 0x1000 ≡ addr = omega arith in
                let keeps = ih.others addr (λ j lt'. later_page addr n j small lt') in
                ap (λ a. allocated pool a cr3 m2) same ∙ ap present keeps ∙ b.done yes_done
            | inr nz ↦
                let same : addr + k * 0x1000 ≡ addr + 0x1000 + (k - 1) * 0x1000 = omega arith in
                ap (λ a. allocated pool a cr3 m2) same ∙ ih.done h (k - 1) (omega arith)
          ];
          others = λ v' ne.
              ih.others v' (λ j lt' e. ne (suc j) (omega arith) (e ∙ next_page addr j))
              ∙ b.others v' (λ e. ne 0 (omega arith) (e ∙ first_page addr));
          enough = λ new more.
              ih.enough
                (λ k lt.
                  let at : addr + 0x1000 + k * 0x1000 ≡ addr + suc k * 0x1000 = omega arith in
                  ap present (
                    b.others (addr + 0x1000 + k * 0x1000)
                      (λ e. later_page addr n k small lt (sym e)))
                  ∙ ap (λ a. allocated pool a cr3 m) at
                  ∙ new (suc k) (omega arith))
                (let c = b.cost in omega arith);
        })
        | inr not_done ↦ rw not_done (record {
          own' = b.own';
          tables = b.tables;
          done = λ h. absurd (ground arith);
          others = λ v' ne. b.others v' (λ e. ne 0 (omega arith) (e ∙ first_page addr));
          enough = λ new more.
              let at : addr + 0 * 0x1000 ≡ addr = omega arith in
              let yes_done =
                b.enough (ap (λ a. allocated pool a cr3 m) (sym at) ∙ new 0 (omega arith))
                  (omega arith) in
              absurd (ground arith);
        })
      ]

  -- `allocate` of a range that does not wrap around: when it answers true, every address of the
  -- range is allocated, every page outside of it is what it was, and the tables are still a tree
  -- that shares no frame with the free ones of the pool.
  pub allocate-backs :
      (cr3 : ℕ) (own : Owners) (mirror kernel readonly : Bool) (from amount : ℕ) (m : Memory pool)
      → 0 < amount
      → amount < 2 ^ 47
      → from + amount + 0x2000 < u64
      → Tables pool (align cr3) own m
      → (allocate pool mirror from amount kernel readonly cr3 m).0 ≡ true
      → (let after = (allocate pool mirror from amount kernel readonly cr3 m).1 in
          ((v : ℕ) → from ≤ v → v < from + amount → allocated pool v cr3 after ≡ true)
          × ((v : ℕ)
              → ((w : ℕ) → from ≤ w → w < from + amount → page_number v ≢ page_number w)
              → page pool v cr3 after ≡ page pool v cr3 m)
          × (own' : Owners) × Tables pool (align cr3) own' after)
  unfolding allocate
  allocate-backs cr3 own mirror kernel readonly from amount m pos small room v =
      let n = pages-lem from amount pos room in
      rw n (
        go (allocate_loop pool mirror kernel readonly cr3 (align from) (pages from amount) m) (
          allocate_loop-Range cr3 own mirror kernel readonly (align from) (pages from amount) m
            (omega arith) v))
    where
      result : Bool × ℕ × Memory pool → Bool × Memory pool
      result r =
          if r.0
          then (true, r.2)
          else (false, deallocate pool (align from) (r.1 - align from) cr3 r.2)

      go :
          (r : Bool × ℕ × Memory pool)
          → Range cr3 (align from) (pages from amount) m r
          → (result r).0 ≡ true
          → ((v' : ℕ) → from ≤ v' → v' < from + amount → allocated pool v' cr3 (result r).1 ≡ true)
            × ((v' : ℕ)
                → ((w : ℕ) → from ≤ w → w < from + amount → page_number v' ≢ page_number w)
                → page pool v' cr3 (result r).1 ≡ page pool v' cr3 m)
            × (own' : Owners) × Tables pool (align cr3) own' (result r).1
      go (false, addr, m') g h = absurd (ground arith)
      go (true, addr, m') g h = (
        λ v' lo hi.
            let at = page_within from amount v' lo hi in
            allocated-page v' (align from + (v' - align from) / 0x1000 * 0x1000) cr3 m' at.1
            ∙ g.done refl ((v' - align from) / 0x1000) at.0,
        λ v' ne.
            g.others v'
              (λ k lt e. let w = within from amount k lt pos in ne w.0 w.1 w.2 (e ∙ sym w.3)),
        g.own',
        g.tables,
      )

  -- `allocate` answers true for a range that does not wrap around, in which no address is allocated
  -- yet, if the pool has four free frames for each page of it.
  pub allocate-succeeds :
      (cr3 : ℕ) (own : Owners) (mirror kernel readonly : Bool) (from amount : ℕ) (m : Memory pool)
      → 0 < amount
      → amount < 2 ^ 47
      → from + amount + 0x2000 < u64
      → Tables pool (align cr3) own m
      → ((v : ℕ) → from ≤ v → v < from + amount → allocated pool v cr3 m ≡ false)
      → 4 * ((amount + from % 0x1000 + 0xFFF) / 0x1000) ≤ size (pool.free m.frames)
      → (allocate pool mirror from amount kernel readonly cr3 m).0 ≡ true
  unfolding allocate
  allocate-succeeds cr3 own mirror kernel readonly from amount m pos small room v new more =
      let n = pages-lem from amount pos room in
      let g =
        allocate_loop-Range cr3 own mirror kernel readonly (align from) (pages from amount) m
          (omega arith) v in
      rw n (rw (g.enough (λ k lt. free_page k lt) more) refl)
    where
      free_page :
          (k : ℕ) → k < pages from amount → allocated pool (align from + k * 0x1000) cr3 m ≡ false
      free_page k lt =
          let w = within from amount k lt pos in
          sym (allocated-page w.0 (align from + k * 0x1000) cr3 m w.3) ∙ new w.0 w.1 w.2
