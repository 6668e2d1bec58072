-- ===== src/Memory/Paging/Back.antt =====
-- One round of `allocate`: the page gets a frame, and every other page stays as it was.
use cthulhu_os.Prelude.{
  ℕ, suc, ◌+◌, ◌%◌, ◌^◌, ◌≤◌, ◌<◌, ◌≡◌, refl, sym, ap, ◌∙◌, ◌≢◌, ◌⊎◌, inl, inr, Bool, true, false,
  not, ◌&&◌, Option, none, some, List, [], arith, ◌==◌, if◌then◌else◌, Bool-cases, All,
}
use cthulhu_os.Memory.Frames.{align}
use cthulhu_os.Memory.Paging.{
  FramePool, Memory, bit, present, path, table, set_word, fill, page_entry, get_page, entry_at,
  page, allocated, new_frame, allocate_frame, back_page,
}
use cthulhu_os.Memory.Paging.Entry.{
  page_entry-lem, page_entry-present, set_word_self, fill_ne, page_number, same_page,
}
use cthulhu_os.Memory.Paging.Walk.{
  Owners, Down, down_to, word_of, entry, size, Extends, some-none, owner_ne, down_to-owner, onto,
}
use cthulhu_os.Memory.Paging.Grow.{eq_or_ne}
use cthulhu_os.Memory.Paging.Put.{Put, Put-Down, Put-entry, Put-others}
use cthulhu_os.Memory.Paging.Tree.{Tables, get_free_frame-Taken, walk-down_to, walk-Walked}
use mathlib.Core.Path.{subst}

align-aligned : (a : ℕ) → align a % 0x1000 ≡ 0
unfolding align
align-aligned a = omega arith

nonzero : (exec : Bool) (a f : ℕ) → (if exec then a % 2 ^ 63 else a) ≡ f → 0 < f → (a == 0) ≡ false
nonzero true a f h pos = ground arith
nonzero false a f h pos = ground arith

module _ (pool : FramePool) where
  open pool use {Pool, Valid, free, get_free_frame}

  pub page-entry :
      (v cr3 : ℕ) (m : Memory pool)
      → page pool v cr3 m ≡ entry m.words (align cr3) (path v) (table v)
  unfolding page get_page entry_at
  page-entry v cr3 m =
      ap (λ r. entry_at pool r (table v)) (walk-down_to pool false (align cr3) (path v) m)
      ∙ go (down_to m.words (align cr3) (path v))
    where
      go : (o : Option ℕ) → entry_at pool (o, m) (table v) ≡ word_of m.words o (table v)
      go none = refl
      go (some t) = refl

  -- What `allocate_frame` does at the entry `i` of a table of the last level.
  pub record Filled (cr3 : ℕ) (own : Owners) (m : Memory pool) (t i : ℕ) (r : ℕ × Memory pool)
      : Type 0 where
    pub valid : Valid r.1.frames
    pub spare : All (λ g. own g ≡ none) (free r.1.frames)
    pub written :
        ((r.0 ≡ 0) × (r.1.words ≡ m.words))
        ⊎ ((e : ℕ) × (present e ≡ true) × Put own m.words t i e r.1.words)
    pub enough : present (m.words t i) ≡ false → 0 < size (free m.frames) → (r.0 == 0) ≡ false
    pub cost : size (free m.frames) ≤ suc (size (free r.1.frames))

  new_frame-Filled :
      (cr3 : ℕ) (own : Owners) (mirror kernel readonly exec : Bool) (t i : ℕ) (q : List ℕ)
      (m : Memory pool)
      → Tables pool cr3 own m
      → own t ≡ some (0, q)
      → Filled cr3 own m t i
          (new_frame pool mirror kernel readonly exec t i m (get_free_frame m.frames))
  unfolding new_frame
  new_frame-Filled cr3 own mirror kernel readonly exec t i q m v o =
      let tk = get_free_frame-Taken pool own m.frames v.valid v.spare in
      let f = (get_free_frame m.frames).0 in
      elim (Bool-cases (f == 0)) [
        | inl no_frame ↦ rw no_frame (record {
          valid = tk.valid;
          spare = tk.spare;
          written = inl (refl, refl);
          enough = λ h more. let some_left = tk.enough more in absurd (ground arith);
          cost = tk.cost;
        })
        | inr some_frame ↦
            let got = tk.got some_frame in
            rw some_frame (record {
              valid = tk.valid;
              spare = tk.spare;
              written = inr (
                  fill_in mirror
                    (if bit (m.words t i) 1 && bit (m.words t i) 3
                      then bit (m.words t i) 4
                      else exec)
                    got.0 got.1 got.2);
              enough = λ h more.
                  answer mirror
                    (if bit (m.words t i) 1 && bit (m.words t i) 3
                      then bit (m.words t i) 4
                      else exec)
                    got.0 got.1 got.2 got.4;
              cost = tk.cost;
            })
      ]
    where
      fill_in :
          (mirror exec' : Bool)
          → own ((get_free_frame m.frames).0) ≡ none
          → (get_free_frame m.frames).0 % 0x1000 ≡ 0
          → (get_free_frame m.frames).0 < 2 ^ 63
          → (e : ℕ) × (present e ≡ true)
            × (let entry = page_entry ((get_free_frame m.frames).0) kernel readonly exec' in
                let words' = set_word m.words t i entry in
                let at = if exec' then align entry % 2 ^ 63 else align entry in
                Put own m.words t i e
                  (if mirror then fill words' at 0xCCCCCCCCCCCCCCCC else words'))
      fill_in false exec' s al small =
          let e = page_entry ((get_free_frame m.frames).0) kernel readonly exec' in
          let lem = page_entry-lem ((get_free_frame m.frames).0) kernel readonly exec' al small in
          (e, lem.0, record { path = q; last = o; tables = λ x y w h. refl })
      fill_in true exec' s al small =
          let e = page_entry ((get_free_frame m.frames).0) kernel readonly exec' in
          let lem = page_entry-lem ((get_free_frame m.frames).0) kernel readonly exec' al small in
          let at = if exec' then align e % 2 ^ 63 else align e in
          (
            e,
            lem.0,
            record {
              path = q;
              last = o;
              tables = λ x y w h.
                  fill_ne (set_word m.words t i e) at 0xCCCCCCCCCCCCCCCC x y
                    (owner_ne own x at h (ap own lem.1 ∙ s));
            },
          )

      answer :
          (mirror exec' : Bool)
          → own ((get_free_frame m.frames).0) ≡ none
          → (get_free_frame m.frames).0 % 0x1000 ≡ 0
          → (get_free_frame m.frames).0 < 2 ^ 63
          → 0 < (get_free_frame m.frames).0
          → (let entry = page_entry ((get_free_frame m.frames).0) kernel readonly exec' in
              let words' = set_word m.words t i entry in
              let at = if exec' then align entry % 2 ^ 63 else align entry in
              (align ((if mirror then fill words' at 0xCCCCCCCCCCCCCCCC else words') t i) == 0)
              ≡ false)
      answer false exec' s al small pos =
          let e = page_entry ((get_free_frame m.frames).0) kernel readonly exec' in
          let lem = page_entry-lem ((get_free_frame m.frames).0) kernel readonly exec' al small in
          ap (λ w. align w == 0) (set_word_self m.words t i e)
          ∙ nonzero exec' (align e) ((get_free_frame m.frames).0) lem.1 pos
      answer true exec' s al small pos =
          let e = page_entry ((get_free_frame m.frames).0) kernel readonly exec' in
          let lem = page_entry-lem ((get_free_frame m.frames).0) kernel readonly exec' al small in
          let at = if exec' then align e % 2 ^ 63 else align e in
          ap (λ w. align w == 0)
            (fill_ne (set_word m.words t i e) at 0xCCCCCCCCCCCCCCCC t i
                (owner_ne own t at o (ap own lem.1 ∙ s))
              ∙ set_word_self m.words t i e)
          ∙ nonzero exec' (align e) ((get_free_frame m.frames).0) lem.1 pos

  allocate_frame-Filled :
      (cr3 : ℕ) (own : Owners) (mirror kernel readonly : Bool) (t i : ℕ) (q : List ℕ)
      (m : Memory pool)
      → Tables pool cr3 own m
      → own t ≡ some (0, q)
      → Filled cr3 own m t i (allocate_frame pool mirror kernel readonly false t i m)
  unfolding allocate_frame
  allocate_frame-Filled cr3 own mirror kernel readonly t i q m v o =
      elim (Bool-cases (present (m.words t i))) [
        | inl is_there ↦ rw is_there (record {
          valid = v.valid;
          spare = v.spare;
          written = inr (
            page_entry (align (m.words t i)) kernel readonly false,
            page_entry-present (align (m.words t i)) kernel readonly (align-aligned (m.words t i)),
            record { path = q; last = o; tables = λ x y w h. refl },
          );
          enough = λ h more. absurd (ground arith);
          cost = omega arith;
        })
        | inr not_there ↦
            rw not_there (new_frame-Filled cr3 own mirror kernel readonly false t i q m v o)
      ]

  -- What a round of `allocate` does.
  pub record Backed (cr3 : ℕ) (own : Owners) (m : Memory pool) (addr : ℕ) (r : Bool × Memory pool)
      : Type 0 where
    pub own' : Owners
    pub tables : Tables pool (align cr3) own' r.1
    pub done : r.0 ≡ true → allocated pool addr cr3 r.1 ≡ true
    pub others :
        (v : ℕ) → page_number v ≢ page_number addr → page pool v cr3 r.1 ≡ page pool v cr3 m
    pub enough : allocated pool addr cr3 m ≡ false → 4 ≤ size (free m.frames) → r.0 ≡ true
    pub cost : size (free m.frames) ≤ 4 + size (free r.1.frames)

  back_found :
      (cr3 : ℕ) (own own' : Owners) (mirror kernel readonly : Bool) (addr u : ℕ)
      (m m' : Memory pool)
      → Tables pool (align cr3) own m
      → Tables pool (align cr3) own' m'
      → Extends own m.words own' m'.words
      → down_to m'.words (align cr3) (path addr) ≡ some u
      → size (free m.frames) ≤ 3 + size (free m'.frames)
      → Backed cr3 own m addr (back_page pool mirror kernel readonly (some u, m') addr)
  unfolding back_page path allocated
  back_found cr3 own own' mirror kernel readonly addr u m m' v0 v ext at less =
      let o = down_to-owner own' m'.words (align cr3) u [] (path addr) v.down v.root at in
      let r = allocate_frame pool mirror kernel readonly false u (table addr) m' in
      let f =
        allocate_frame-Filled (align cr3) own' mirror kernel readonly u (table addr)
          (onto (path addr) []) m' v o in
      elim f.written [
        | inl w ↦ record {
          own' = own';
          tables = record {
            root = v.root;
            down = subst (Down own') (sym w.1) v.down;
            valid = f.valid;
            spare = f.spare;
          };
          done = λ h. absurd (let z = w.0 in ground arith);
          others = λ v' ne.
              page-entry v' cr3 r.1
              ∙ ap (λ words. entry words (align cr3) (path v') (table v')) w.1
              ∙ ext.same (align cr3) (table v') (path v') [] v0.root
              ∙ sym (page-entry v' cr3 m);
          enough = λ new more.
              let was = word_at new in let nz = f.enough was (omega arith) in rw nz refl;
          cost = let c = f.cost in omega arith;
        }
        | inr w ↦ record {
          own' = own';
          tables = record {
            root = v.root;
            down = Put-Down own' m'.words r.1.words u (table addr) w.0 w.2 v.down;
            valid = f.valid;
            spare = f.spare;
          };
          done = λ h.
              ap present (
                page-entry addr cr3 r.1
                ∙ Put-entry own' m'.words r.1.words u (table addr) w.0 (align cr3) (path addr) []
                    w.2 v.down v.root at)
              ∙ w.1;
          others = λ v' ne.
              page-entry v' cr3 r.1
              ∙ Put-others own' m'.words r.1.words u (table addr) w.0 (align cr3) (table v')
                  (path addr) (path v') [] w.2 v.down v.root at refl (differs v' ne)
              ∙ ext.same (align cr3) (table v') (path v') [] v0.root
              ∙ sym (page-entry v' cr3 m);
          enough = λ new more.
              let was = word_at new in let nz = f.enough was (omega arith) in rw nz refl;
          cost = let c = f.cost in omega arith;
        }
      ]
    where
      word_at : allocated pool addr cr3 m ≡ false → present (m'.words u (table addr)) ≡ false
      word_at new =
          ap present (
            ap (λ t. word_of m'.words t (table addr)) (sym at)
            ∙ ext.same (align cr3) (table addr) (path addr) [] v0.root
            ∙ sym (page-entry addr cr3 m))
          ∙ new

      differs :
          (v' : ℕ)
          → page_number v' ≢ page_number addr
          → (path v' ≢ path addr) ⊎ (table v' ≢ table addr)
      differs v' ne = elim (eq_or_ne (table v') (table addr)) [
        | inl e ↦ inl (λ p. ne (same_page v' addr p e))
        | inr ne' ↦ inr ne'
      ]

  pub back_page-Backed :
      (cr3 : ℕ) (own : Owners) (mirror kernel readonly : Bool) (addr : ℕ) (m : Memory pool)
      → Tables pool (align cr3) own m
      → Backed cr3 own m addr
          (back_page pool mirror kernel readonly (get_page pool addr cr3 true (not kernel) m) addr)
  unfolding back_page get_page path
  back_page-Backed cr3 own mirror kernel readonly addr m v =
      let w = walk-Walked pool (align cr3) own (not kernel) (align cr3) (path addr) [] m v v.root in
      go (get_page pool addr cr3 true (not kernel) m) w.own' w.tables w.extends w.found w.enough
        w.cost
    where
      go :
          (r : Option ℕ × Memory pool) (own' : Owners)
          → Tables pool (align cr3) own' r.1
          → Extends own m.words own' r.1.words
          → ((u : ℕ) → r.0 ≡ some u → down_to r.1.words (align cr3) (path addr) ≡ some u)
          → (3 ≤ size (free m.frames) → (u : ℕ) × (r.0 ≡ some u))
          → size (free m.frames) ≤ 3 + size (free r.1.frames)
          → Backed cr3 own m addr (back_page pool mirror kernel readonly r addr)
      go (none, m') own' t ext found enough cost = record {
        own' = own';
        tables = t;
        done = λ h. absurd (ground arith);
        others = λ v' ne.
            page-entry v' cr3 m'
            ∙ ext.same (align cr3) (table v') (path v') [] v.root
            ∙ sym (page-entry v' cr3 m);
        enough = λ new more. let u = enough (omega arith) in absurd (some-none u.1 refl);
        cost = omega arith;
      }
      go (some u, m') own' t ext found enough cost =
          back_found cr3 own own' mirror kernel readonly addr u m m' v t ext (found u refl) cost
