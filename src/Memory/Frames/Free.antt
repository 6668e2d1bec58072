-- ===== src/Memory/Frames/Free.antt =====
-- One section: its free list holds unused frames, each once, and stays so.
use cthulhu_os.Prelude.{
  ℕ, zero, suc, ◌+◌, ◌-◌, ◌*◌, ◌%◌, ◌^◌, ◌≤◌, ◌<◌, ◌≡◌, refl, sym, ap, ◌∙◌, ◌≢◌, inl, inr, Bool,
  true, false, Option, some, List, [], ◌∷◌, arith, u32, get_elem?, set, Bool-cases, ◌==◌,
}
use cthulhu_os.Memory.Frames.{FrameInfo, Section, take_frame, drop_use, release}
use mathlib.Core.Option
use mathlib.Core.Path.{subst}
use mathlib.Core.Option.{some-injective}

-- The `i`-th frame of a section with its two records.
pub record IsFrame (s : Section) (i : ℕ) (fi : FrameInfo) : Type 0 where
  pub inside : i < s.total_frames
  pub element :
      get_elem? s.elements i
      ≡ some (record { frame_address = s.start_word + i * 0x1000; array_ord = i })
  pub info : get_elem? s.frame_array i ≡ some fi
  pub bound : fi.bound_stack_element ≡ i

abbrev pub Absent : ℕ → List ℕ → Type 0
Absent i [] = Unit
Absent i (j ∷ js) = (i ≢ j) × Absent i js

abbrev pub FreeList : Section → List ℕ → Type 0
FreeList s [] = Unit
FreeList s (i ∷ is) =
    ((fi : FrameInfo) × IsFrame s i fi × (fi.usage_count ≡ 0)) × Absent i is × FreeList s is

pub record IsSection (s : Section) : Type 0 where
  pub aligned : s.start_word % 0x1000 ≡ 0
  pub positive : 0 < s.start_word
  pub room : s.start_word + s.total_frames * 0x1000 ≤ s.end_word
  pub small : s.end_word < 2 ^ 63
  pub few : s.total_frames < u32
  pub free : FreeList s s.head

get_elem?-set_ne {ℓ} :
    {A : Type ℓ} (xs : List A) (i j : ℕ) (v : A) → i ≢ j → get_elem? (set xs i v) j ≡ get_elem? xs j
get_elem?-set_ne [] i j v h = refl
get_elem?-set_ne (x ∷ xs) zero zero v h = absurd (h refl)
get_elem?-set_ne (x ∷ xs) zero (suc j) v h = refl
get_elem?-set_ne (x ∷ xs) (suc i) zero v h = refl
get_elem?-set_ne (x ∷ xs) (suc i) (suc j) v h = get_elem?-set_ne xs i j v (λ e. h (ap suc e))

get_elem?-set_self {ℓ} :
    {A : Type ℓ} (xs : List A) (i : ℕ) (v w : A)
    → get_elem? xs i ≡ some w
    → get_elem? (set xs i v) i ≡ some v
get_elem?-set_self [] i v w h = cc
get_elem?-set_self (x ∷ xs) zero v w h = refl
get_elem?-set_self (x ∷ xs) (suc i) v w h = get_elem?-set_self xs i v w h

set-set_self {ℓ} :
    {A : Type ℓ} (xs : List A) (i : ℕ) (v w : A)
    → get_elem? xs i ≡ some w
    → set (set xs i v) i w ≡ xs
set-set_self [] i v w h = refl
set-set_self (x ∷ xs) zero v w h = ap (λ y. y ∷ xs) (sym (some-injective x w h))
set-set_self (x ∷ xs) (suc i) v w h = ap (λ l. x ∷ l) (set-set_self xs i v w h)

-- A change of one frame's record leaves the others.
IsFrame-set :
    (s : Section) (hd : List ℕ) (i j : ℕ) (new fi : FrameInfo)
    → i ≢ j
    → IsFrame s j fi
    → IsFrame (record s { head = hd; frame_array = set s.frame_array i new }) j fi
IsFrame-set s hd i j new fi ne f = record {
  inside = f.inside;
  element = f.element;
  info = get_elem?-set_ne s.frame_array i j new ne ∙ f.info;
  bound = f.bound;
}

IsFrame-set_self :
    (s : Section) (hd : List ℕ) (i : ℕ) (new fi : FrameInfo)
    → new.bound_stack_element ≡ i
    → IsFrame s i fi
    → IsFrame (record s { head = hd; frame_array = set s.frame_array i new }) i new
IsFrame-set_self s hd i new fi b f = record {
  inside = f.inside;
  element = f.element;
  info = get_elem?-set_self s.frame_array i new fi f.info;
  bound = b;
}

FreeList-set :
    (s : Section) (hd : List ℕ) (i : ℕ) (new : FrameInfo) (is : List ℕ)
    → Absent i is
    → FreeList s is
    → FreeList (record s { head = hd; frame_array = set s.frame_array i new }) is
FreeList-set s hd i new [] a f = tt
FreeList-set s hd i new (j ∷ js) a ((fi, frame, unused), absent, rest) = (
  (fi, IsFrame-set s hd i j new fi a.0 frame, unused),
  absent,
  FreeList-set s hd i new js a.1 rest,
)

-- A used frame is not in the free list.
Absent-used :
    (s : Section) (i : ℕ) (fi : FrameInfo) (is : List ℕ)
    → IsFrame s i fi
    → fi.usage_count ≢ 0
    → FreeList s is
    → Absent i is
Absent-used s i fi [] frame used f = tt
Absent-used s i fi (j ∷ js) frame used ((fj, g, unused), absent, rest) = (
  (λ e. used (
      ap (λ (o : FrameInfo). o.usage_count)
        (some-injective fi fj (sym frame.info ∙ ap (get_elem? s.frame_array) e ∙ g.info))
      ∙ unused)),
  Absent-used s i fi js frame used rest,
)

-- What taking the first free frame does.
pub record Taken (s : Section) (e : ℕ) (rest : List ℕ) (r : Option (ℕ × Section)) : Type 0 where
  pub after : Section
  pub info : FrameInfo
  pub result : r ≡ some (s.start_word + e * 0x1000, after)
  pub was : IsFrame s e info
  pub is : IsFrame after e (record info { usage_count = 1 })
  pub valid : IsSection after
  pub array : after ≡ record s {
    head = rest;
    frame_array = set s.frame_array e (record info { usage_count = 1 });
  }

pub take_frame-Taken :
    (s : Section) (e : ℕ) (rest : List ℕ)
    → s.head ≡ e ∷ rest
    → IsSection s
    → Taken s e rest (take_frame s e rest)
unfolding take_frame Option.bind
take_frame-Taken s e rest h v = go (subst (FreeList s) h v.free)
  where
    go : FreeList s (e ∷ rest) → Taken s e rest (take_frame s e rest)
    go ((fi, frame, unused), absent, free) = record {
      after = record s {
        head = rest;
        frame_array = set s.frame_array e (record fi { usage_count = 1 });
      };
      info = fi;
      result = rw (frame.element) (rw (frame.info));
      was = frame;
      is = IsFrame-set_self s rest e (record fi { usage_count = 1 }) fi frame.bound frame;
      valid = record {
        aligned = v.aligned;
        positive = v.positive;
        room = v.room;
        small = v.small;
        few = v.few;
        free = FreeList-set s rest e (record fi { usage_count = 1 }) rest absent free;
      };
      array = refl;
    }

-- What giving back a used frame does: the last use puts it at the front of the free list.
pub record Released (s : Section) (i : ℕ) (fi : FrameInfo) (r : Bool × Section) : Type 0 where
  pub valid : IsSection r.1
  pub frame : IsFrame r.1 i (drop_use fi)
  pub span : (r.1.start_word ≡ s.start_word) × (r.1.end_word ≡ s.end_word)
  pub freed : fi.usage_count ≡ 1 → (r.0 ≡ true) × (r.1.head ≡ i ∷ s.head)
  pub kept : 1 < fi.usage_count → (r.0 ≡ false) × (r.1.head ≡ s.head)

abbrev put_back : Section → ℕ → FrameInfo → Section
put_back s i fi = record s {
  head = fi.bound_stack_element ∷ s.head;
  frame_array = set s.frame_array i (drop_use fi);
}

drop_use-usage :
    (fi : FrameInfo)
    → 0 < fi.usage_count
    → fi.usage_count < u32
    → (drop_use fi).usage_count ≡ fi.usage_count - 1
unfolding drop_use
drop_use-usage fi pos small = omega arith

pub release-Released :
    (s : Section) (i : ℕ) (fi : FrameInfo)
    → IsSection s
    → IsFrame s i fi
    → 0 < fi.usage_count
    → fi.usage_count < u32
    → Released s i fi (release s i fi)
unfolding release
release-Released s i fi v frame pos small =
    let less = drop_use-usage fi pos small in
    let absent : Absent i s.head = Absent-used s i fi s.head frame (omega arith) v.free in
    elim (Bool-cases ((drop_use fi).usage_count == 0)) [
      | inl e ↦ rw e (record {
        valid = record {
          aligned = v.aligned;
          positive = v.positive;
          room = v.room;
          small = v.small;
          few = v.few;
          free = subst (FreeList (put_back s i fi)) (ap (λ j. j ∷ s.head) (sym frame.bound)) (
            (drop_use fi, dropped (fi.bound_stack_element ∷ s.head), ground arith),
            absent,
            FreeList-set s (fi.bound_stack_element ∷ s.head) i (drop_use fi) s.head absent v.free,
          );
        };
        frame = dropped (fi.bound_stack_element ∷ s.head);
        span = (refl, refl);
        freed = λ one. (refl, ap (λ j. j ∷ s.head) frame.bound);
        kept = λ more. absurd (ground arith);
      })
      | inr e ↦ rw e (record {
        valid = record {
          aligned = v.aligned;
          positive = v.positive;
          room = v.room;
          small = v.small;
          few = v.few;
          free = FreeList-set s s.head i (drop_use fi) s.head absent v.free;
        };
        frame = dropped s.head;
        span = (refl, refl);
        freed = λ one. absurd (ground arith);
        kept = λ more. (refl, refl);
      })
    ]
  where
    dropped :
        (hd : List ℕ)
        → IsFrame
            (record s { head = hd; frame_array = set s.frame_array i (drop_use fi) })
            i
            (drop_use fi)
    dropped hd = IsFrame-set_self s hd i (drop_use fi) fi frame.bound frame
