-- ===== src/Memory/Frames/Serve.antt =====
-- `get_free_frame` and `free_frame` of a pool: what a caller may count on.
use cthulhu_os.Prelude.{
  ℕ, ◌+◌, ◌-◌, ◌*◌, ◌%◌, ◌^◌, ◌≤◌, ◌<◌, ◌≡◌, refl, sym, ap, ◌∙◌, ◌≢◌, Bool, true, false, some, List,
  [], ◌∷◌, ◌++◌, arith, u32, All,
}
use cthulhu_os.Memory.Frames.{FrameInfo, Section, align, get_free_frame, drop_use, free_frame}
use cthulhu_os.Memory.Frames.Free.{Absent, FreeList, IsSection}
use cthulhu_os.Memory.Frames.Pool.{
  Apart, IsPool, addresses, free_frames, first_or_zero, rest_of, Owns, here, there,
  free_frame_loop-Handed, Returned, release_loop-Returned,
}
use mathlib.Core.List.{Perm}
use mathlib.Core.Path.{subst}

abbrev pub Distinct : List ℕ → Type 0
Distinct [] = Unit
Distinct (a ∷ more) = All (λ b. a ≢ b) more × Distinct more

All-append {ℓ m} :
    {A : Type ℓ} (P : A → Type m) (xs ys : List A) → All P xs → All P ys → All P (xs ++ ys)
All-append P [] ys p q = q
All-append P (x ∷ xs) ys (h, p) q = (h, All-append P xs ys p q)

-- The free frames of a section lie inside it.
addresses-inside :
    (s : Section) (is : List ℕ)
    → IsSection s
    → FreeList s is
    → All (λ b. (s.start_word ≤ b) × (b < s.end_word)) (addresses s is)
addresses-inside s [] v f = tt
addresses-inside s (i ∷ is) v ((fi, frame, unused), absent, rest) =
    let room = v.room in
    let inside = frame.inside in ((omega arith, omega arith), addresses-inside s is v rest)

pub free_frames-aligned :
    (pool : List Section)
    → IsPool pool
    → All (λ f. (f % 0x1000 ≡ 0) × (0 < f) × (f < 2 ^ 63)) (free_frames pool)
free_frames-aligned [] v = tt
free_frames-aligned (s ∷ ss) v =
    All-append _ (addresses s s.head) (free_frames ss) (own s.head v.0.free)
      (free_frames-aligned ss v.2)
  where
    own :
        (is : List ℕ)
        → FreeList s is
        → All (λ f. (f % 0x1000 ≡ 0) × (0 < f) × (f < 2 ^ 63)) (addresses s is)
    own [] f = tt
    own (i ∷ is) ((fi, frame, unused), absent, rest) =
        let room = v.0.room in
        let inside = frame.inside in
        let al = v.0.aligned in
        let pos = v.0.positive in
        let small = v.0.small in ((omega arith, omega arith, omega arith), own is rest)

-- An address outside of every section of a pool is none of its free frames.
free_frames-outside :
    (b : ℕ) (s : Section) (pool : List Section)
    → IsPool pool
    → (s.start_word ≤ b) × (b < s.end_word)
    → All (Apart s) pool
    → All (λ c. b ≢ c) (free_frames pool)
free_frames-outside b s [] v h a = tt
free_frames-outside b s (t ∷ ts) v h a =
    All-append _ (addresses t t.head) (free_frames ts)
      (differ (addresses t t.head) (addresses-inside t t.head v.0 v.0.free))
      (free_frames-outside b s ts v.2 h a.1)
  where
    differ :
        (cs : List ℕ) → All (λ c. (t.start_word ≤ c) × (c < t.end_word)) cs → All (λ c. b ≢ c) cs
    differ [] i = tt
    differ (c ∷ cs) i =
        let lo = h.0 in
        let hi = h.1 in let apart = a.0 in let j = i.0 in (omega arith, differ cs i.1)

addresses-differ :
    (s : Section) (i : ℕ) (is : List ℕ)
    → Absent i is
    → All (λ b. s.start_word + i * 0x1000 ≢ b) (addresses s is)
addresses-differ s i [] a = tt
addresses-differ s i (j ∷ js) a =
    let ne = a.0 in ((λ e. ne (omega arith)), addresses-differ s i js a.1)

append-Distinct :
    (s : Section) (is : List ℕ) (pool : List Section)
    → IsSection s
    → IsPool pool
    → All (Apart s) pool
    → FreeList s is
    → Distinct (free_frames pool)
    → Distinct (addresses s is ++ free_frames pool)
append-Distinct s [] pool v w a f d = d
append-Distinct s (i ∷ is) pool v w a f d = (
  All-append _ (addresses s is) (free_frames pool) (addresses-differ s i is f.1) (
      free_frames-outside (s.start_word + i * 0x1000) s pool w (addresses-inside s (i ∷ is) v f).0
        a),
  append-Distinct s is pool v w a f.2 d,
)

-- No frame stands twice among the free frames of a pool.
pub free_frames-Distinct : (pool : List Section) → IsPool pool → Distinct (free_frames pool)
free_frames-Distinct [] v = tt
free_frames-Distinct (s ∷ ss) v =
    append-Distinct s s.head ss v.0 v.2 v.1 v.0.free (free_frames-Distinct ss v.2)

-- `get_free_frame` of a pool with sections answers with the first free frame and leaves the others
-- in their order, or answers 0 when there is none; the pool stays valid, and a frame handed out has
-- one use.
pub get_free_frame-first :
    (malloc tmp_heap : ℕ) (pool : List Section)
    → pool ≢ []
    → IsPool pool
    → (after : List Section) × (get_free_frame malloc tmp_heap pool
        ≡ some (first_or_zero (free_frames pool), after, tmp_heap))
      × (free_frames after ≡ rest_of (free_frames pool))
      × IsPool after
      × (free_frames pool ≢ []
          → (fi : FrameInfo) × (fi.usage_count ≡ 1)
            × Owns (first_or_zero (free_frames pool)) fi after)
unfolding get_free_frame
get_free_frame-first malloc tmp [] nonempty v = absurd (nonempty refl)
get_free_frame-first malloc tmp (s ∷ ss) nonempty v =
    let h = free_frame_loop-Handed (s ∷ ss) v in
    (
      h.after,
      rw (h.result) (rw (h.first) refl),
      h.others,
      h.valid,
      λ free. rw (sym h.first) (h.owned free),
    )

Owns-aligned :
    (fa : ℕ) (fi : FrameInfo) (pool : List Section)
    → IsPool pool
    → Owns fa fi pool
    → fa % 0x1000 ≡ 0
Owns-aligned fa fi [] v o = elim o [ ]
Owns-aligned fa fi (s ∷ ss) v (here i f e) = let al = v.0.aligned in omega arith
Owns-aligned fa fi (s ∷ ss) v (there o w) = Owns-aligned fa fi ss v.2 w

free_frame-Returned :
    (fa o : ℕ) (fi : FrameInfo) (pool : List Section)
    → o < 0x1000
    → IsPool pool
    → Owns fa fi pool
    → 0 < fi.usage_count
    → fi.usage_count < u32
    → Returned fa fi pool (free_frame (fa + o) pool)
unfolding free_frame align
free_frame-Returned fa o fi pool low v owns pos small =
    let al = Owns-aligned fa fi pool v owns in
    let same : fa + o - (fa + o) % 0x1000 ≡ fa = omega arith in
    rw same (release_loop-Returned fa fi pool v owns pos small)

pub free_frame-give_back :
    (fa o : ℕ) (fi : FrameInfo) (pool : List Section)
    → o < 0x1000
    → IsPool pool
    → Owns fa fi pool
    → 0 < fi.usage_count
    → fi.usage_count < u32
    → (zeroed : Bool) × (after : List Section) × (free_frame (fa + o) pool ≡ some (zeroed, after))
      × IsPool after
      × Owns fa (drop_use fi) after
      × (fi.usage_count ≡ 1 → (zeroed ≡ true) × Perm (free_frames after) (fa ∷ free_frames pool))
      × (1 < fi.usage_count → (zeroed ≡ false) × (free_frames after ≡ free_frames pool))
free_frame-give_back fa o fi pool low v owns pos small =
    let r = free_frame-Returned fa o fi pool low v owns pos small in
    (r.zeroed, r.after, r.result, r.valid, r.owns, r.last, r.shared)

first-rest : (l : List ℕ) → l ≢ [] → first_or_zero l ∷ rest_of l ≡ l
first-rest [] h = absurd (h refl)
first-rest (x ∷ xs) h = refl

-- A frame that is taken and given back is free again: the pool has the free frames it had.
pub free_frame-get_free_frame :
    (malloc tmp_heap : ℕ) (pool : List Section)
    → pool ≢ []
    → IsPool pool
    → free_frames pool ≢ []
    → (frame : ℕ) × (taken : List Section) × (back : List Section) × (get_free_frame malloc tmp_heap
          pool
        ≡ some (frame, taken, tmp_heap))
      × (free_frame frame taken ≡ some (true, back))
      × IsPool back
      × Perm (free_frames back) (free_frames pool)
free_frame-get_free_frame malloc tmp pool nonempty v free =
    let (taken, got, others, valid, owned) = get_free_frame-first malloc tmp pool nonempty v in
    let (fi, one, owns) = owned free in
    let frame = first_or_zero (free_frames pool) in
    let same : frame + 0 ≡ frame = omega arith in
    let (zeroed, back, gave, valid', owns', last, shared) =
      free_frame-give_back frame 0 fi taken (omega arith) valid owns (omega arith) (omega arith) in
    let (z, perm) = last one in
    (
      frame,
      taken,
      back,
      got,
      ap (λ a. free_frame a taken) (sym same) ∙ gave ∙ ap (λ b. some (b, back)) z,
      valid',
      subst (Perm (free_frames back))
          (ap (λ l. frame ∷ l) others ∙ first-rest (free_frames pool) free) perm,
    )
