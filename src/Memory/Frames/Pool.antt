-- ===== src/Memory/Frames/Pool.antt =====
-- The pool: frames are handed out in the order of its free lists, no frame twice, and come back.
use cthulhu_os.Prelude.{
  ℕ, ◌+◌, ◌*◌, ◌≤◌, ◌<◌, ◌≡◌, refl, sym, ap, ◌∙◌, ◌≢◌, ◌⊎◌, Bool, true, false, Option, some, List,
  [], ◌∷◌, ◌++◌, arith, u32, set, All,
}
use cthulhu_os.Memory.Frames.{
  FrameInfo, Section, hand_out, free_frame_loop, drop_use, release, in_section, frame_index,
  release_loop, get_frame_info,
}
use cthulhu_os.Memory.Frames.Free.{IsFrame, IsSection, take_frame-Taken, release-Released}
use mathlib.Core.List.{Perm, perm_middle}
use mathlib.Core.List.Perm
use mathlib.Core.Path.{subst}

-- Two sections share no address.
abbrev pub Apart : Section → Section → Type 0
Apart s t = (s.end_word ≤ t.start_word) ⊎ (t.end_word ≤ s.start_word)

abbrev pub IsPool : List Section → Type 0
IsPool [] = Unit
IsPool (s ∷ ss) = IsSection s × All (Apart s) ss × IsPool ss

abbrev pub addresses : Section → List ℕ → List ℕ
addresses s [] = []
addresses s (i ∷ is) = (s.start_word + i * 0x1000) ∷ addresses s is

-- The frames that `get_free_frame` can still hand out, in its order.
abbrev pub free_frames : List Section → List ℕ
free_frames [] = []
free_frames (s ∷ ss) = addresses s s.head ++ free_frames ss

abbrev pub first_or_zero : List ℕ → ℕ
first_or_zero [] = 0
first_or_zero (a ∷ more) = a

abbrev pub rest_of : List ℕ → List ℕ
rest_of [] = []
rest_of (a ∷ more) = more

-- What a lookup of a frame's address meets: the sections before do not hold the address, and the
-- next one has the frame.
pub data Owns (fa : ℕ) (fi : FrameInfo) : List Section → Type 0 where
  here :
      {s : Section} {ss : List Section} (i : ℕ)
      → IsFrame s i fi
      → fa ≡ s.start_word + i * 0x1000
      → Owns fa fi (s ∷ ss)
  there :
      {s : Section} {ss : List Section}
      → in_section fa s ≡ false
      → Owns fa fi ss
      → Owns fa fi (s ∷ ss)

frame_at :
    (s : Section) (i : ℕ)
    → IsSection s
    → i < s.total_frames
    → (in_section (s.start_word + i * 0x1000) s ≡ true)
      × (frame_index (s.start_word + i * 0x1000) s ≡ i)
unfolding in_section frame_index
frame_at s i v h =
    let room = v.room in let few = v.few in let small = v.small in (ground arith, omega arith)

-- A section that is apart from a pool does not hold the address of one of its frames.
outside :
    (fa : ℕ) (fi : FrameInfo) (s : Section) (pool : List Section)
    → IsPool pool
    → All (Apart s) pool
    → Owns fa fi pool
    → in_section fa s ≡ false
unfolding in_section
outside fa fi s [] v a o = elim o [ ]
outside fa fi s (t ∷ ss) v a (here i f e) =
    let b = a.0 in let room = v.0.room in let inside = f.inside in ground arith
outside fa fi s (t ∷ ss) v a (there o w) = outside fa fi s ss v.2 a.1 w

-- What `get_free_frame` returns.
pub record Handed (pool : List Section) (r : Option (ℕ × List Section)) : Type 0 where
  pub frame : ℕ
  pub after : List Section
  pub result : r ≡ some (frame, after)
  pub first : frame ≡ first_or_zero (free_frames pool)
  pub others : free_frames after ≡ rest_of (free_frames pool)
  pub valid : IsPool after
  pub spans : (t : Section) → All (Apart t) pool → All (Apart t) after
  pub owned : free_frames pool ≢ [] → (fi : FrameInfo) × (fi.usage_count ≡ 1) × Owns frame fi after

addresses-same :
    (s t : Section) (is : List ℕ) → t.start_word ≡ s.start_word → addresses t is ≡ addresses s is
addresses-same s t [] e = refl
addresses-same s t (i ∷ is) e = rw (e, addresses-same s t is e)

addresses-head :
    (s t : Section) (hd : List ℕ)
    → t.start_word ≡ s.start_word
    → t.head ≡ hd
    → addresses t t.head ≡ addresses s hd
addresses-head s t hd p q = ap (addresses t) q ∙ addresses-same s t hd p

Apart-same :
    (s t : Section) (ss : List Section)
    → t.start_word ≡ s.start_word
    → t.end_word ≡ s.end_word
    → All (Apart s) ss
    → All (Apart t) ss
Apart-same s t [] p q a = tt
Apart-same s t (u ∷ ss) p q a = (omega arith, Apart-same s t ss p q a.1)

Apart-of :
    (u s t : Section)
    → t.start_word ≡ s.start_word
    → t.end_word ≡ s.end_word
    → Apart u s
    → Apart u t
Apart-of u s t p q a = omega arith

hand_out-Handed :
    (s : Section) (ss : List Section) (hd : List ℕ) {further : Option (ℕ × List Section)}
    → s.head ≡ hd
    → IsPool (s ∷ ss)
    → Handed ss further
    → Handed (s ∷ ss) (hand_out s hd ss further)
unfolding hand_out
hand_out-Handed s ss [] e v h = record {
  frame = h.frame;
  after = s ∷ h.after;
  result = rw (h.result);
  first = rw e (h.first);
  others = rw e (h.others);
  valid = (v.0, h.spans s v.1, h.valid);
  spans = λ t a. (a.0, h.spans t a.1);
  owned = λ some_free.
      let (fi, one, o) =
        h.owned (λ z. some_free (ap (λ l. addresses s l ++ free_frames ss) e ∙ z)) in
      (fi, one, there (outside h.frame fi s h.after h.valid (h.spans s v.1) o) o);
}
hand_out-Handed s ss (i ∷ rest) e v h =
    let t = take_frame-Taken s i rest e v.0 in
    record {
      frame = s.start_word + i * 0x1000;
      after = t.after ∷ ss;
      result = rw (t.result);
      first = rw e;
      others = remain (record t.info { usage_count = 1 }) t.after t.array;
      valid = (
        t.valid,
        Apart-same s t.after ss (ap (λ (u : Section). u.start_word) t.array)
            (ap (λ (u : Section). u.end_word) t.array) v.1,
        v.2,
      );
      spans = λ u a. (
        Apart-of u s t.after (ap (λ (w : Section). w.start_word) t.array)
            (ap (λ (w : Section). w.end_word) t.array) a.0,
        a.1,
      );
      owned = λ some_free. (
        record t.info { usage_count = 1 },
        refl,
        here i t.is (ap (λ b. b + i * 0x1000) (sym (ap (λ (w : Section). w.start_word) t.array))),
      );
    }
  where
    remain :
        (fi : FrameInfo) (after : Section)
        → after ≡ record s { head = rest; frame_array = set s.frame_array i fi }
        → free_frames (after ∷ ss) ≡ rest_of (free_frames (s ∷ ss))
    remain fi after p =
        ap (λ u. addresses u u.head ++ free_frames ss) p
        ∙ ap (λ l. l ++ free_frames ss)
            (addresses-same s (record s { head = rest; frame_array = set s.frame_array i fi }) rest
              refl)
        ∙ sym (ap (λ l. rest_of (addresses s l ++ free_frames ss)) e)

pub free_frame_loop-Handed :
    (pool : List Section) → IsPool pool → Handed pool (free_frame_loop pool)
unfolding free_frame_loop
free_frame_loop-Handed [] v = record {
  frame = 0;
  after = [];
  result = refl;
  first = refl;
  others = refl;
  valid = tt;
  spans = λ t a. tt;
  owned = λ some_free. absurd (some_free refl);
}
free_frame_loop-Handed (s ∷ ss) v =
    hand_out-Handed s ss s.head refl v (free_frame_loop-Handed ss v.2)

-- `get_frame_info` of the address of a frame is that frame's record.
pub get_frame_info-Owns :
    (fa : ℕ) (fi : FrameInfo) (pool : List Section)
    → IsPool pool
    → Owns fa fi pool
    → get_frame_info fa pool ≡ some fi
unfolding get_frame_info
get_frame_info-Owns fa fi [] v o = elim o [ ]
get_frame_info-Owns fa fi (s ∷ ss) v (here i f e) =
    let at = frame_at s i v.0 f.inside in rw (e, at.0, at.1) f.info
get_frame_info-Owns fa fi (s ∷ ss) v (there o w) = rw o (get_frame_info-Owns fa fi ss v.2 w)

-- What `free_frame` of a frame in use does.
pub record Returned (fa : ℕ) (fi : FrameInfo) (pool : List Section)
    (r : Option (Bool × List Section)) : Type 0 where
  pub zeroed : Bool
  pub after : List Section
  pub result : r ≡ some (zeroed, after)
  pub valid : IsPool after
  pub owns : Owns fa (drop_use fi) after
  pub spans : (t : Section) → All (Apart t) pool → All (Apart t) after
  pub last : fi.usage_count ≡ 1 → (zeroed ≡ true) × Perm (free_frames after) (fa ∷ free_frames pool)
  pub shared : 1 < fi.usage_count → (zeroed ≡ false) × (free_frames after ≡ free_frames pool)

pub release_loop-Returned :
    (fa : ℕ) (fi : FrameInfo) (pool : List Section)
    → IsPool pool
    → Owns fa fi pool
    → 0 < fi.usage_count
    → fi.usage_count < u32
    → Returned fa fi pool (release_loop fa pool)
unfolding release_loop
release_loop-Returned fa fi [] v o pos small = elim o [ ]
release_loop-Returned fa fi (s ∷ ss) v (here i f e) pos small =
    let at = frame_at s i v.0 f.inside in
    let r = release-Released s i fi v.0 f pos small in
    rw (e, at.0, at.1, f.info)
      (record {
        zeroed = (release s i fi).0;
        after = (release s i fi).1 ∷ ss;
        result = refl;
        valid = (r.valid, Apart-same s (release s i fi).1 ss r.span.0 r.span.1 v.1, v.2);
        owns = here i r.frame (ap (λ b. b + i * 0x1000) (sym r.span.0));
        spans = λ t a. (Apart-of t s (release s i fi).1 r.span.0 r.span.1 a.0, a.1);
        last = λ one. (
          (r.freed one).0,
          subst
              (λ l.
                Perm (l ++ free_frames ss)
                  ((s.start_word + i * 0x1000) ∷ (addresses s s.head ++ free_frames ss)))
              (sym (addresses-head s (release s i fi).1 (i ∷ s.head) r.span.0 (r.freed one).1))
              (Perm.refl ((s.start_word + i * 0x1000) ∷ (addresses s s.head ++ free_frames ss))),
        );
        shared = λ more. (
          (r.kept more).0,
          ap (λ l. l ++ free_frames ss)
              (addresses-head s (release s i fi).1 s.head r.span.0 (r.kept more).1),
        );
      })
release_loop-Returned fa fi (s ∷ ss) v (there o w) pos small =
    let ih = release_loop-Returned fa fi ss v.2 w pos small in
    rw (o, ih.result)
      (record {
        zeroed = ih.zeroed;
        after = s ∷ ih.after;
        result = refl;
        valid = (v.0, ih.spans s v.1, ih.valid);
        owns = there o ih.owns;
        spans = λ t a. (a.0, ih.spans t a.1);
        last = λ one. (
          (ih.last one).0,
          Perm.trans (Perm.append_left (addresses s s.head) (ih.last one).1)
              (perm_middle (addresses s s.head) (free_frames ss)),
        );
        shared = λ more. ((ih.shared more).0, ap (λ l. addresses s s.head ++ l) (ih.shared more).1);
      })
