-- ===== src/Memory/Paging/Tree.antt =====
-- `__get_page`: the way to a page, with the tables that it adds.
use cthulhu_os.Prelude.{
  ℕ, suc, ◌+◌, ◌%◌, ◌^◌, ◌≤◌, ◌<◌, ◌≡◌, refl, sym, ap, ◌∙◌, ◌≢◌, inl, inr, Bool, true, false,
  Option, none, some, List, [], ◌∷◌, arith, ◌==◌, Bool-cases, All,
}
use cthulhu_os.Memory.Frames.{align}
use cthulhu_os.Memory.Frames.Pool.{first_or_zero, rest_of}
use cthulhu_os.Memory.Frames.Serve.{Distinct}
use cthulhu_os.Memory.Paging.{
  FramePool, Memory, present, table_entry, new_table, descend, onward, walk,
}
use cthulhu_os.Memory.Paging.Entry.{table_entry-lem}
use cthulhu_os.Memory.Paging.Walk.{
  Owners, Down, down_to, size, Extends, Extends-refl, Extends-trans, some-none,
}
use cthulhu_os.Memory.Paging.Grow.{
  with_table, with_table_self, with_table_ne, Fresh, grown, grown-entry, grown-Extends, grown-Down,
}
use mathlib.Core.Path.{subst}

module _ (pool : FramePool) where
  open pool use {Pool, Valid, free, get_free_frame}

  -- The memory holds the tables of `cr3`, in which every present entry leads to the table that
  -- belongs there and no frame is the table of two places; no free frame of the pool is a table.
  pub record Tables (cr3 : ℕ) (own : Owners) (m : Memory pool) : Type 0 where
    pub root : own cr3 ≡ some (3, [])
    pub down : Down own m.words
    pub valid : Valid m.frames
    pub spare : All (λ f. own f ≡ none) (free m.frames)

  -- What a call of `get_free_frame` brings.
  pub record Taken (own : Owners) (p : Pool) : Type 0 where
    pub valid : Valid ((get_free_frame p).1)
    pub spare : All (λ g. own g ≡ none) (free ((get_free_frame p).1))
    pub got :
        ((get_free_frame p).0 == 0) ≡ false
        → (own ((get_free_frame p).0) ≡ none)
          × ((get_free_frame p).0 % 0x1000 ≡ 0)
          × ((get_free_frame p).0 < 2 ^ 63)
          × All (λ g. (get_free_frame p).0 ≢ g) (free ((get_free_frame p).1))
          × (0 < (get_free_frame p).0)
    pub enough : 0 < size (free p) → ((get_free_frame p).0 == 0) ≡ false
    pub cost : size (free p) ≤ suc (size (free ((get_free_frame p).1)))

  size-rest_of : (l : List ℕ) → size l ≤ suc (size (rest_of l))
  size-rest_of [] = omega arith
  size-rest_of (x ∷ xs) = omega arith

  rest_of-All : (P : ℕ → Type 0) (l : List ℕ) → All P l → All P (rest_of l)
  rest_of-All P [] a = tt
  rest_of-All P (x ∷ xs) a = a.1

  pub get_free_frame-Taken :
      (own : Owners) (p : Pool) → Valid p → All (λ g. own g ≡ none) (free p) → Taken own p
  get_free_frame-Taken own p v s = record {
    valid = pool.stays p v;
    spare =
        subst (All (λ g. own g ≡ none)) (sym (pool.leaves p v))
          (rest_of-All (λ g. own g ≡ none) (free p) s);
    got = go (free p) refl s (pool.distinct p v) (pool.frames p v);
    enough = left (free p) refl (pool.frames p v);
    cost =
        subst (λ l. size (free p) ≤ suc (size l)) (sym (pool.leaves p v)) (size-rest_of (free p));
  }
    where
      left :
          (l : List ℕ)
          → free p ≡ l
          → All (λ f. (f % 0x1000 ≡ 0) × (0 < f) × (f < 2 ^ 63)) l
          → 0 < size l
          → ((get_free_frame p).0 == 0) ≡ false
      left [] e f h = absurd (omega arith)
      left (x ∷ xs) e f h =
          let is = pool.gets p v ∙ ap first_or_zero e in let pos = f.0.1 in ground arith

      go :
          (l : List ℕ)
          → free p ≡ l
          → All (λ g. own g ≡ none) l
          → Distinct l
          → All (λ f. (f % 0x1000 ≡ 0) × (0 < f) × (f < 2 ^ 63)) l
          → ((get_free_frame p).0 == 0) ≡ false
          → (own ((get_free_frame p).0) ≡ none)
            × ((get_free_frame p).0 % 0x1000 ≡ 0)
            × ((get_free_frame p).0 < 2 ^ 63)
            × All (λ g. (get_free_frame p).0 ≢ g) (free ((get_free_frame p).1))
            × (0 < (get_free_frame p).0)
      go [] e s d f ne = let none_left = pool.gets p v ∙ ap first_or_zero e in absurd (ground arith)
      go (x ∷ xs) e s d f ne =
          let is = pool.gets p v ∙ ap first_or_zero e in
          let rest = pool.leaves p v ∙ ap rest_of e in
          (
            ap own is ∙ s.0,
            ap (λ a. a % 0x1000) is ∙ f.0.0,
            rw is (f.0.2),
            subst (λ l. All (λ g. (get_free_frame p).0 ≢ g) l) (sym rest)
                (subst (λ a. All (λ g. a ≢ g) xs) (sym is) d.0),
            rw is (f.0.1),
          )

  pub walk-down_to :
      (user : Bool) (t : ℕ) (is : List ℕ) (m : Memory pool)
      → walk pool false user t is m ≡ (down_to m.words t is, m)
  unfolding walk onward descend
  walk-down_to user t [] m = refl
  walk-down_to user t (i ∷ is) m = elim (Bool-cases (present (m.words t i))) [
    | inl is_there ↦ rw is_there (walk-down_to user (align (m.words t i)) is m)
    | inr not_there ↦ rw not_there refl
  ]

  -- What `__get_page` does where it may add tables.
  pub record Walked (cr3 : ℕ) (own : Owners) (m : Memory pool) (t : ℕ) (is : List ℕ)
      (r : Option ℕ × Memory pool) : Type 0 where
    pub own' : Owners
    pub tables : Tables cr3 own' r.1
    pub extends : Extends own m.words own' r.1.words
    pub found : (u : ℕ) → r.0 ≡ some u → down_to r.1.words t is ≡ some u
    pub enough : size is ≤ size (free m.frames) → (u : ℕ) × (r.0 ≡ some u)
    pub cost : size (free m.frames) ≤ size is + size (free r.1.frames)

  descend-there :
      (user : Bool) (t i : ℕ) (m : Memory pool)
      → present (m.words t i) ≡ true
      → descend pool true user t i m ≡ (some (align (m.words t i)), m)
  unfolding descend
  descend-there user t i m h = rw h refl

  descend-new :
      (user : Bool) (t i : ℕ) (m : Memory pool)
      → present (m.words t i) ≡ false
      → descend pool true user t i m ≡ new_table pool user t i m (get_free_frame m.frames)
  unfolding descend
  descend-new user t i m h = rw h refl

  abbrev grown_memory : Bool → ℕ → ℕ → Memory pool → Memory pool
  grown_memory user t i m =
      let entry = table_entry ((get_free_frame m.frames).0) user in
      record { words = grown m.words t i (align entry) entry; frames = (get_free_frame m.frames).1 }

  new_table-got :
      (user : Bool) (t i : ℕ) (m : Memory pool)
      → ((get_free_frame m.frames).0 == 0) ≡ false
      → new_table pool user t i m (get_free_frame m.frames)
        ≡ (some (align ((grown_memory user t i m).words t i)), grown_memory user t i m)
  unfolding new_table
  new_table-got user t i m h = rw h refl

  new_table-none :
      (user : Bool) (t i : ℕ) (m : Memory pool)
      → ((get_free_frame m.frames).0 == 0) ≡ true
      → new_table pool user t i m (get_free_frame m.frames)
        ≡ (none, record { words = m.words; frames = (get_free_frame m.frames).1 })
  unfolding new_table
  new_table-none user t i m h = rw h refl

  grown-Fresh :
      (own : Owners) (user : Bool) (t i n : ℕ) (p : List ℕ) (m : Memory pool)
      → own t ≡ some (suc n, p)
      → present (m.words t i) ≡ false
      → own ((get_free_frame m.frames).0) ≡ none
      → (get_free_frame m.frames).0 % 0x1000 ≡ 0
      → (let e = table_entry ((get_free_frame m.frames).0) user in
          Fresh own m.words t i n p (align e) e)
  grown-Fresh own user t i n p m o unused spare aligned =
      let lem = table_entry-lem ((get_free_frame m.frames).0) user aligned in
      record { table = o; unused = unused; spare = ap own lem.1 ∙ spare; on = lem.0; leads = refl }

  spare_with_table :
      (own : Owners) (f : ℕ) (v : ℕ × List ℕ) (l : List ℕ)
      → All (λ g. own g ≡ none) l
      → All (λ g. f ≢ g) l
      → All (λ g. with_table own f v g ≡ none) l
  spare_with_table own f v [] s d = tt
  spare_with_table own f v (g ∷ gs) s d =
      (with_table_ne own f g v (λ e. d.0 (sym e)) ∙ s.0, spare_with_table own f v gs s.1 d.1)

  grown-Tables :
      (cr3 : ℕ) (own : Owners) (user : Bool) (t i n : ℕ) (p : List ℕ) (m : Memory pool)
      → Tables cr3 own m
      → own t ≡ some (suc n, p)
      → present (m.words t i) ≡ false
      → ((get_free_frame m.frames).0 == 0) ≡ false
      → (let e = table_entry ((get_free_frame m.frames).0) user in
          let own1 = with_table own (align e) (n, i ∷ p) in
          Tables cr3 own1 (grown_memory user t i m)
          × Extends own m.words own1 (grown_memory user t i m).words
          × ((grown_memory user t i m).words t i ≡ e)
          × (present e ≡ true)
          × (own1 (align e) ≡ some (n, i ∷ p)))
  grown-Tables cr3 own user t i n p m v o unused some_frame =
      let tk = get_free_frame-Taken own m.frames v.valid v.spare in
      let got = tk.got some_frame in
      let e = table_entry ((get_free_frame m.frames).0) user in
      let lem = table_entry-lem ((get_free_frame m.frames).0) user got.1 in
      let fr = grown-Fresh own user t i n p m o unused got.0 got.1 in
      let ext = grown-Extends own m.words t i n p (align e) e fr v.down in
      (
        record {
          root = ext.owners cr3 (3, []) v.root;
          down = grown-Down own m.words t i n p (align e) e fr v.down;
          valid = tk.valid;
          spare =
              spare_with_table own (align e) (n, i ∷ p) (free ((get_free_frame m.frames).1))
                tk.spare
                (subst (λ a. All (λ g. a ≢ g) (free ((get_free_frame m.frames).1))) (sym lem.1)
                  got.3);
        },
        ext,
        grown-entry own m.words t i n p (align e) e fr,
        lem.0,
        with_table_self own (align e) (n, i ∷ p),
      )

  pub walk-Walked :
      (cr3 : ℕ) (own : Owners) (user : Bool) (t : ℕ) (is p : List ℕ) (m : Memory pool)
      → Tables cr3 own m
      → own t ≡ some (size is, p)
      → Walked cr3 own m t is (walk pool true user t is m)
  unfolding walk onward
  walk-Walked cr3 own user t [] p m v o = record {
    own' = own;
    tables = v;
    extends = Extends-refl own m.words;
    found = λ u h. h;
    enough = λ h. (t, refl);
    cost = omega arith;
  }
  walk-Walked cr3 own user t (i ∷ is) p m v o = elim (Bool-cases (present (m.words t i))) [
    | inl is_there ↦
        let ih =
          walk-Walked cr3 own user (align (m.words t i)) is (i ∷ p) m v
            (v.down t i (size is) p o is_there) in
        rw (descend-there user t i m is_there) (record {
          own' = ih.own';
          tables = ih.tables;
          extends = ih.extends;
          found = λ u h.
              let same = ih.extends.keeps t i (size (i ∷ is), p) o is_there in
              rw (same, is_there) (ih.found u h);
          enough = λ h. ih.enough (omega arith);
          cost = let c = ih.cost in omega arith;
        })
    | inr not_there ↦ elim (Bool-cases ((get_free_frame m.frames).0 == 0)) [
      | inl no_frame ↦
          let tk = get_free_frame-Taken own m.frames v.valid v.spare in
          rw (descend-new user t i m not_there, new_table-none user t i m no_frame)
            (record {
              own' = own;
              tables = record { root = v.root; down = v.down; valid = tk.valid; spare = tk.spare };
              extends = Extends-refl own m.words;
              found = λ u h. absurd (some-none h refl);
              enough = λ h. let some_left = tk.enough (omega arith) in absurd (ground arith);
              cost = let c = tk.cost in omega arith;
            })
      | inr some_frame ↦
          let tk = get_free_frame-Taken own m.frames v.valid v.spare in
          let e = table_entry ((get_free_frame m.frames).0) user in
          let own1 = with_table own (align e) (size is, i ∷ p) in
          let g = grown-Tables cr3 own user t i (size is) p m v o not_there some_frame in
          let m1 = grown_memory user t i m in
          let ih =
            walk-Walked cr3 own1 user (align (m1.words t i)) is (i ∷ p) m1 g.0
              (ap (λ w. own1 (align w)) g.2 ∙ g.4) in
          rw (descend-new user t i m not_there, new_table-got user t i m some_frame)
            (record {
              own' = ih.own';
              tables = ih.tables;
              extends = Extends-trans g.1 ih.extends;
              found = λ u h.
                  let there_is : present (m1.words t i) ≡ true = ap present g.2 ∙ g.3 in
                  let same =
                    ih.extends.keeps t i (size (i ∷ is), p) (g.1.owners t (size (i ∷ is), p) o)
                      there_is in
                  rw (same, there_is) (ih.found u h);
              enough = λ h. let c = tk.cost in ih.enough (omega arith);
              cost = let c = tk.cost in let c' = ih.cost in omega arith;
            })
    ]
  ]
