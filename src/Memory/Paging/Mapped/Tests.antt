-- ===== src/Memory/Paging/Mapped/Tests.antt =====
-- Mapping a page of physical memory, with a pool that is a list of frames.
use cthulhu_os.Prelude.{
  ◌≤◌, suc, Bool-cases, inl, inr, ap, sym, ℕ, ◌+◌, ◌-◌, ◌*◌, ◌/◌, ◌%◌, ◌^◌, ◌<◌, ◌≡◌, refl, ◌&&◌,
  true, false, Option, some, none, List, [], ◌∷◌, arith, ◌==◌, if◌then◌else◌, All,
}
use mathlib.Core.Option.{some-injective, some-ne-none}
use cthulhu_os.Memory.Frames.{align}
use cthulhu_os.Memory.Frames.Serve.{Distinct}
use cthulhu_os.Memory.Frames.Pool.{first_or_zero, rest_of}
use cthulhu_os.Memory.Paging.{
  FramePool, Memory, present, bit, page, get_page, allocated, align_page_up,
}
use cthulhu_os.Memory.Paging.Walk.{Owners, Down, size}
use cthulhu_os.Memory.Paging.Tree.{Tables}
use cthulhu_os.Memory.Paging.Shared.{FrameInfos, map_page, write_mapped, map_range, MapResult}
use cthulhu_os.Memory.Paging.Change.{chng_type_rw, mem_change_type}
use cthulhu_os.Memory.Paging.Kept.{mem_change_type-Kept}
use cthulhu_os.Memory.Paging.Mapped.{map_range-maps}

abbrev first : List ℕ → ℕ × List ℕ
first [] = (0, [])
first (f ∷ fs) = (f, fs)

abbrev AreFrames : List ℕ → Type 0
AreFrames fs = Distinct fs × All (λ f. (f % 0x1000 ≡ 0) × (0 < f) × (f < 2 ^ 63)) fs

first-gets : (p : List ℕ) → (first p).0 ≡ first_or_zero p
first-gets [] = refl
first-gets (f ∷ fs) = refl

first-leaves : (p : List ℕ) → (first p).1 ≡ rest_of p
first-leaves [] = refl
first-leaves (f ∷ fs) = refl

first-AreFrames : (p : List ℕ) → AreFrames p → AreFrames (first p).1
first-AreFrames [] v = v
first-AreFrames (f ∷ fs) v = (v.0.1, v.1.1)

abbrev listed : FramePool
listed = record {
  Pool = List ℕ;
  get_free_frame = first;
  free_frame = λ f p. (true, f ∷ p);
  Valid = AreFrames;
  free = λ p. p;
  gets = λ p v. first-gets p;
  leaves = λ p v. first-leaves p;
  stays = first-AreFrames;
  distinct = λ p v. v.0;
  frames = λ p v. v.1;
}

-- No frame has a record.
abbrev no_infos : FrameInfos listed
no_infos = record {
  cow_count = λ f p. none;
  usage_count = λ f p. none;
  use_more = λ f p. p;
  cow_less = λ f p. p;
  use_less = λ f p. p;
  lowers_cow = λ f c p e. absurd (some-ne-none _ (sym e));
  lowers_usage = λ f c p e. absurd (some-ne-none _ (sym e));
  taken = λ f p ne. (refl, refl);
  use_more-free = λ f p. refl;
  use_more-Valid = λ f p v. v;
}

abbrev empty_memory : Memory listed
empty_memory = record {
  words = λ t i. 0;
  frames = 0x10000 ∷ 0x11000 ∷ 0x12000 ∷ 0x13000 ∷ 0x14000 ∷ 0x15000 ∷ 0x16000 ∷ [];
}

abbrev only_root : Owners
only_root x = if x == 0x1000 then some (3, []) else none

empty-Down : Down only_root empty_memory.words
unfolding present bit
empty-Down x y k p o h = absurd (ground arith)

empty-Tables : Tables listed (align 0x1000) only_root empty_memory
unfolding align
empty-Tables = record {
  root = refl;
  down = empty-Down;
  valid = (
    (
      (
        (λ e. omega arith),
        (
          (λ e. omega arith),
          (
            (λ e. omega arith),
            ((λ e. omega arith), ((λ e. omega arith), ((λ e. omega arith), tt))),
          ),
        ),
      ),
      (
        (
          (λ e. omega arith),
          (
            (λ e. omega arith),
            ((λ e. omega arith), ((λ e. omega arith), ((λ e. omega arith), tt))),
          ),
        ),
        (
          (
            (λ e. omega arith),
            ((λ e. omega arith), ((λ e. omega arith), ((λ e. omega arith), tt))),
          ),
          (
            ((λ e. omega arith), ((λ e. omega arith), ((λ e. omega arith), tt))),
            (((λ e. omega arith), ((λ e. omega arith), tt)), (((λ e. omega arith), tt), (tt, tt))),
          ),
        ),
      ),
    ),
    (
      (refl, omega arith, omega arith),
      (
        (refl, omega arith, omega arith),
        (
          (refl, omega arith, omega arith),
          (
            (refl, omega arith, omega arith),
            (
              (refl, omega arith, omega arith),
              ((refl, omega arith, omega arith), ((refl, omega arith, omega arith), tt)),
            ),
          ),
        ),
      ),
    ),
  );
  spare = (refl, (refl, (refl, (refl, (refl, (refl, (refl, tt)))))));
}

abbrev or_empty : Option (MapResult listed no_infos) → MapResult listed no_infos
or_empty none = record { ok = false; start = 0; tostart = 0; memory = empty_memory }
or_empty (some r) = r

abbrev result : MapResult listed no_infos
result = or_empty (
    map_range listed no_infos false true false 0x1000 0xB8000 (0xB8000 + 0x1000) 0x400000
      empty_memory)

result-some :
    map_range listed no_infos false true false 0x1000 0xB8000
      (0xB8000 + 0x1000)
      0x400000
      empty_memory
    ≡ some result
unfolding map_range map_page write_mapped get_page
result-some = refl

result-ok : result.ok ≡ true
unfolding map_range map_page write_mapped get_page
result-ok = refl

-- What the mapping has left is a tree of tables.
result-tree : (own' : Owners) × Tables listed (align 0x1000) own' result.memory
result-tree =
    let t =
      map_range-maps listed no_infos 0x1000 only_root true false 0xB8000 0x1000 0x400000
        empty_memory result (omega arith) (omega arith) refl empty-Tables result-some result-ok in
    (t.2, t.3)

-- The page of 0x400000 is present.
result-present : allocated listed 0x400000 0x1000 result.memory ≡ true
unfolding allocated page map_range map_page write_mapped get_page
result-present = refl

four_left : 4 * (align_page_up 0x1000 / 0x1000) ≤ size result.memory.frames
unfolding map_range map_page write_mapped get_page align_page_up
four_left = omega arith

mem_change_type-Kept_example :
    (m' : Memory listed) × (mem_change_type listed 0x400000 0x1000 chng_type_rw true 0x1000
        result.memory
      ≡ some m')
    × ((v : ℕ)
        → allocated listed v 0x1000 result.memory ≡ true
        → page listed v 0x1000 m' ≡ page listed v 0x1000 result.memory)
    × (own' : Owners) × Tables listed (align 0x1000) own' m'
mem_change_type-Kept_example =
    mem_change_type-Kept listed 0x1000 result-tree.0 0x400000 0x1000 chng_type_rw true result.memory
      result-tree.1 four_left

-- The pool with the two counts of the frame 0x20000 beside it.
record Counted : Type 0 where
  list : List ℕ
  cow : ℕ
  usage : ℕ

abbrev counted : FramePool
counted = record {
  Pool = Counted;
  get_free_frame = λ p. ((first p.list).0, record p { list = (first p.list).1 });
  free_frame = λ f p. (true, record p { list = f ∷ p.list });
  Valid = λ p. AreFrames p.list;
  free = λ p. p.list;
  gets = λ p v. first-gets p.list;
  leaves = λ p v. first-leaves p.list;
  stays = λ p v. first-AreFrames p.list v;
  distinct = λ p v. v.0;
  frames = λ p v. v.1;
}

abbrev of_shared : ℕ → ℕ → Option ℕ
of_shared f n = if f == 0x20000 then some n else none

of_shared-less :
    (f c n : ℕ)
    → of_shared f n ≡ some (suc c)
    → of_shared f (if f == 0x20000 then n - 1 else n) ≡ some c
of_shared-less f c n e = elim (Bool-cases (f == 0x20000)) [
  | inl h ↦ let k = some-injective _ _ (rw h at e) in rw h (ap some (omega arith))
  | inr h ↦ absurd (some-ne-none _ (sym (rw h at e)))
]

abbrev counts : FrameInfos counted
counts = record {
  cow_count = λ f p. of_shared f p.cow;
  usage_count = λ f p. of_shared f p.usage;
  use_more = λ f p. record p { usage = if f == 0x20000 then p.usage + 1 else p.usage };
  cow_less = λ f p. record p { cow = if f == 0x20000 then p.cow - 1 else p.cow };
  use_less = λ f p. record p { usage = if f == 0x20000 then p.usage - 1 else p.usage };
  lowers_cow = λ f c p e. of_shared-less f c p.cow e;
  lowers_usage = λ f u p e. of_shared-less f u p.usage e;
  taken = λ f p ne. (refl, refl);
  use_more-free = λ f p. refl;
  use_more-Valid = λ f p v. v;
}

-- The page 5 of the table 0x1000 is present and leads to the frame 0x20000.
abbrev shared_memory : Memory counted
shared_memory = record {
  words = λ t i. if t == 0x1000 && i == 5 then 0x20005 else i;
  frames = record { list = 0x10000 ∷ 0x11000 ∷ []; cow = 2; usage = 3 };
}
