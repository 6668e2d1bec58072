-- ===== src/Memory/Paging/Mapped.antt =====
-- `map_range` of physical memory (src/kernel/memory/paging.c): every page of the range leads to its
-- frame, and the other pages stay.
mod Tests
use cthulhu_os.Prelude.{
  ℕ, zero, suc, ◌+◌, ◌-◌, ◌*◌, ◌/◌, ◌%◌, ◌^◌, ◌≤◌, ◌<◌, ◌≡◌, refl, sym, ap, ◌∙◌, ◌≢◌, ◌⊎◌, inl, inr,
  Bool, true, false, not, Option, none, some, [], arith, if◌then◌else◌, sub64, u64, sub64-eq,
  Bool-cases,
}
use cthulhu_os.Memory.Frames.{align}
use mathlib.Core.Option.{some-injective}
use cthulhu_os.Memory.Paging.{FramePool, Memory, path, table, set_word, get_page, page}
use cthulhu_os.Memory.Paging.Entry.{page_number, same_page}
use cthulhu_os.Memory.Paging.Walk.{Owners, Extends, down_to, entry, down_to-owner, onto, some-none}
use cthulhu_os.Memory.Paging.Grow.{eq_or_ne}
use cthulhu_os.Memory.Paging.Put.{Put, Put-Down, Put-entry, Put-others}
use cthulhu_os.Memory.Paging.Tree.{Tables, walk-Walked}
use cthulhu_os.Memory.Paging.Back.{page-entry}
use cthulhu_os.Memory.Paging.Shared.{
  FrameInfos, mapped_entry, map_page, map_next, map_loop, map_result, map_range, MapResult,
  write_mapped,
}

module _ (pool : FramePool) (infos : FrameInfos pool) where
  -- A round of the loop without its Option.
  round : ℕ → ℕ → Option ℕ × Memory pool → Bool × Memory pool
  round e addr (none, m) = (false, m)
  round e addr (some t, m) = (true, record m { words = set_word m.words t (table addr) e })

  map_page-round :
      (readonly kernel : Bool) (cr3 smem tmem : ℕ) (r : Option ℕ × Memory pool)
      → map_page pool infos false readonly kernel cr3 smem tmem r
        ≡ some (round (mapped_entry smem readonly kernel) tmem r)
  unfolding map_page write_mapped round
  map_page-round readonly kernel cr3 smem tmem (none, m) = refl
  map_page-round readonly kernel cr3 smem tmem (some t, m) = refl

  -- What a round does to the pages.
  record Written (cr3 e addr : ℕ) (m : Memory pool) (r : Bool × Memory pool) : Type 0 where
    own' : Owners
    tables : Tables pool (align cr3) own' r.1
    done : r.0 ≡ true → page pool addr cr3 r.1 ≡ e
    others : (v : ℕ) → page_number v ≢ page_number addr → page pool v cr3 r.1 ≡ page pool v cr3 m

  round-Written :
      (cr3 : ℕ) (own : Owners) (user : Bool) (e addr : ℕ) (m : Memory pool)
      → Tables pool (align cr3) own m
      → Written cr3 e addr m (round e addr (get_page pool addr cr3 true user m))
  unfolding round get_page path
  round-Written cr3 own user e addr m v =
      let w = walk-Walked pool (align cr3) own user (align cr3) (path addr) [] m v v.root in
      go (get_page pool addr cr3 true user m) w.own' w.tables w.extends w.found
    where
      differs :
          (v' : ℕ)
          → page_number v' ≢ page_number addr
          → (path v' ≢ path addr) ⊎ (table v' ≢ table addr)
      differs v' ne = elim (eq_or_ne (table v') (table addr)) [
        | inl t ↦ inl (λ p. ne (same_page v' addr p t))
        | inr ne' ↦ inr ne'
      ]

      go :
          (r : Option ℕ × Memory pool) (own' : Owners)
          → Tables pool (align cr3) own' r.1
          → Extends own m.words own' r.1.words
          → ((u : ℕ) → r.0 ≡ some u → down_to r.1.words (align cr3) (path addr) ≡ some u)
          → Written cr3 e addr m (round e addr r)
      go (none, m') own' t ext found = record {
        own' = own';
        tables = t;
        done = λ h. absurd (ground arith);
        others = λ v' ne.
            page-entry pool v' cr3 m'
            ∙ ext.same (align cr3) (table v') (path v') [] v.root
            ∙ sym (page-entry pool v' cr3 m);
      }
      go (some u, m') own' t ext found =
          let at = found u refl in
          let o = down_to-owner own' m'.words (align cr3) u [] (path addr) t.down t.root at in
          let m2 : Memory pool = record m' { words = set_word m'.words u (table addr) e } in
          let put : Put own' m'.words u (table addr) e m2.words = record {
            path = onto (path addr) [];
            last = o;
            tables = λ x y w h. refl;
          } in
          record {
            own' = own';
            tables = record {
              root = t.root;
              down = Put-Down own' m'.words m2.words u (table addr) e put t.down;
              valid = t.valid;
              spare = t.spare;
            };
            done = λ h.
                page-entry pool addr cr3 m2
                ∙ Put-entry own' m'.words m2.words u (table addr) e (align cr3) (path addr) [] put
                    t.down t.root at;
            others = λ v' ne.
                page-entry pool v' cr3 m2
                ∙ Put-others own' m'.words m2.words u (table addr) e (align cr3) (table v')
                    (path addr) (path v') [] put t.down t.root at refl (differs v' ne)
                ∙ ext.same (align cr3) (table v') (path v') [] v.root
                ∙ sym (page-entry pool v' cr3 m);
          }

  next_on :
      (offs : ℕ) (r : Bool × Memory pool) (k : Memory pool → Option (Bool × ℕ × Memory pool))
      → r.0 ≡ true
      → map_next pool infos offs (some r) k ≡ k r.1
  unfolding map_next
  next_on offs (true, m) k e = refl
  next_on offs (false, m) k e = absurd (ground arith)

  next_off :
      (offs : ℕ) (r : Bool × Memory pool) (k : Memory pool → Option (Bool × ℕ × Memory pool))
      → r.0 ≡ false
      → map_next pool infos offs (some r) k ≡ some (false, offs, r.1)
  unfolding map_next
  next_off offs (true, m) k e = absurd (ground arith)
  next_off offs (false, m) k e = refl

  -- What the loop does from the offset `offs` on.
  record Mapped (readonly kernel : Bool) (cr3 start tostart offs n : ℕ) (m : Memory pool)
      (o : Option (Bool × ℕ × Memory pool)) : Type 0 where
    r : Bool × ℕ × Memory pool
    result : o ≡ some r
    own' : Owners
    tables : Tables pool (align cr3) own' r.2
    done :
        r.0 ≡ true
        → (k : ℕ) → k < n
        → page pool (tostart + offs + k * 0x1000) cr3 r.2
          ≡ mapped_entry (start + offs + k * 0x1000) readonly kernel
    others :
        (v : ℕ)
        → ((k : ℕ) → k < n → page_number v ≢ page_number (tostart + offs + k * 0x1000))
        → page pool v cr3 r.2 ≡ page pool v cr3 m

  map_loop-Mapped :
      (cr3 : ℕ) (own : Owners) (readonly kernel : Bool) (start tostart offs n : ℕ) (m : Memory pool)
      → n ≤ 2 ^ 36
      → Tables pool (align cr3) own m
      → Mapped readonly kernel cr3 start tostart offs n m
          (map_loop pool infos false readonly kernel cr3 start tostart offs n m)
  unfolding map_loop
  map_loop-Mapped cr3 own readonly kernel start tostart offs zero m small v = record {
    r = (true, offs, m);
    result = refl;
    own' = own;
    tables = v;
    done = λ h k lt. absurd (omega arith);
    others = λ v' ne. refl;
  }
  map_loop-Mapped cr3 own readonly kernel start tostart offs (suc n) m small v =
      let e = mapped_entry (start + offs) readonly kernel in
      let found = get_page pool (tostart + offs) cr3 true (not kernel) m in
      let rr = round e (tostart + offs) found in
      let w = round-Written cr3 own (not kernel) e (tostart + offs) m v in
      let same = map_page-round readonly kernel cr3 (start + offs) (tostart + offs) found in
      elim (Bool-cases rr.0) [
        | inr off ↦ record {
          r = (false, offs, rr.1);
          result = rw same (next_off offs rr _ off);
          own' = w.own';
          tables = w.tables;
          done = λ h. absurd (ground arith);
          others = λ v' ne. w.others v' (λ q. ne 0 (omega arith) (q ∙ at_zero));
        }
        | inl on ↦
            let ih =
              map_loop-Mapped cr3 w.own' readonly kernel start tostart (offs + 0x1000) n rr.1
                (omega arith) w.tables in
            record {
              r = ih.r;
              result = rw same (next_on offs rr _ on ∙ ih.result);
              own' = ih.own';
              tables = ih.tables;
              done = λ h k lt. elim (eq_or_ne k 0) [
                | inl z ↦
                    let here : tostart + offs + k * 0x1000 ≡ tostart + offs = omega arith in
                    let there : start + offs + k * 0x1000 ≡ start + offs = omega arith in
                    rw (here, there)
                      (ih.others (tostart + offs) (λ j lt' q. apart j n lt' small q) ∙ w.done on)
                | inr nz ↦
                    let here : tostart + offs + k * 0x1000
                        ≡ tostart + (offs + 0x1000) + (k - 1) * 0x1000 =
                      omega arith in
                    let there : start + offs + k * 0x1000
                        ≡ start + (offs + 0x1000) + (k - 1) * 0x1000 =
                      omega arith in
                    rw (here, there) (ih.done h (k - 1) (omega arith))
              ];
              others = λ v' ne.
                  ih.others v' (λ j lt' q. ne (suc j) (omega arith) (q ∙ shift j))
                  ∙ w.others v' (λ q. ne 0 (omega arith) (q ∙ at_zero));
            }
      ]
    where
      at_zero : page_number (tostart + offs) ≡ page_number (tostart + offs + 0 * 0x1000)
      at_zero = omega arith

      shift :
          (j : ℕ)
          → page_number (tostart + (offs + 0x1000) + j * 0x1000)
            ≡ page_number (tostart + offs + suc j * 0x1000)
      shift j = omega arith

      apart :
          (j n : ℕ)
          → j < n
          → suc n ≤ 2 ^ 36
          → page_number (tostart + offs) ≢ page_number (tostart + (offs + 0x1000) + j * 0x1000)
      apart j n lt s = λ q. omega arith

  result_memory :
      (start tostart : ℕ) (o : Bool × ℕ × Memory pool) (r : MapResult pool infos)
      → map_result pool infos start tostart (some o) ≡ some r
      → r.ok ≡ true
      → (o.0 ≡ true) × (r.memory ≡ o.2)
  unfolding map_result
  result_memory start tostart (true, offs, m) r e h =
      (refl, ap (λ (x : MapResult pool infos). x.memory) (sym (some-injective _ _ e)))
  result_memory start tostart (false, offs, m) r e h =
      let no = ap (λ (x : MapResult pool infos). x.ok) (some-injective _ _ e) in
      absurd (ground arith)

  no_fault :
      (start tostart : ℕ) (o : Bool × ℕ × Memory pool)
      → map_result pool infos start tostart (some o) ≢ none
  unfolding map_result
  no_fault start tostart (true, offs, m) q = some-none refl q
  no_fault start tostart (false, offs, m) q = some-none refl q

  pages-whole :
      (start size : ℕ)
      → start + size < u64
      → size % 0x1000 ≡ 0
      → (sub64 (start + size) start + 0xFFF) / 0x1000 ≡ size / 0x1000
  pages-whole start size room whole =
      let z = sub64-eq (start + size) start (omega arith) room in omega arith

  pub map_range-maps :
      (cr3 : ℕ) (own : Owners) (readonly kernel : Bool) (start size tostart : ℕ) (m : Memory pool)
      (r : MapResult pool infos)
      → start + size < u64
      → size < 2 ^ 47
      → size % 0x1000 ≡ 0
      → Tables pool (align cr3) own m
      → map_range pool infos false readonly kernel cr3 start (start + size) tostart m ≡ some r
      → r.ok ≡ true
      → ((k : ℕ)
          → k < size / 0x1000
          → page pool (tostart + k * 0x1000) cr3 r.memory
            ≡ mapped_entry (start + k * 0x1000) readonly kernel)
        × ((v : ℕ)
            → ((k : ℕ) → k < size / 0x1000 → page_number v ≢ page_number (tostart + k * 0x1000))
            → page pool v cr3 r.memory ≡ page pool v cr3 m)
        × (own' : Owners) × Tables pool (align cr3) own' r.memory
  unfolding map_range
  map_range-maps cr3 own readonly kernel start size tostart m r room small whole v e h =
      let g =
        map_loop-Mapped cr3 own readonly kernel start tostart 0 (size / 0x1000) m (omega arith) v in
      let end = rw (pages-whole start size room whole, g.result) at e in
      let at = result_memory start tostart g.r r end h in
      let zero_first : tostart + 0 ≡ tostart = omega arith in
      let zero_source : start + 0 ≡ start = omega arith in
      rw at.1 (
        (λ k lt. rw (zero_first, zero_source) at (g.done at.0 k lt)),
        (λ v' ne. g.others v' (rw zero_first ne)),
        g.own',
        g.tables,
      )

  -- `map_range` of physical memory at page boundaries, without a wrap-around, does not fault.
  pub map_range-ends :
      (cr3 : ℕ) (own : Owners) (readonly kernel : Bool) (start size tostart : ℕ) (m : Memory pool)
      → start + size < u64
      → size < 2 ^ 47
      → size % 0x1000 ≡ 0
      → Tables pool (align cr3) own m
      → map_range pool infos false readonly kernel cr3 start (start + size) tostart m ≢ none
  unfolding map_range
  map_range-ends cr3 own readonly kernel start size tostart m room small whole v e =
      let g =
        map_loop-Mapped cr3 own readonly kernel start tostart 0 (size / 0x1000) m (omega arith) v in
      no_fault start tostart g.r (rw (pages-whole start size room whole, g.result) at e)
