-- ===== src/Process/MemMap/Order.antt =====
-- The areas of a map are in address order and do not overlap, and both searches keep them so.
use cthulhu_os.Prelude.{
  ℕ, suc, ◌+◌, ◌≤◌, ◌<◌, ◌≡◌, refl, ◌⊎◌, inl, inr, true, Option, none, some, List, [], ◌∷◌, arith,
  ltb, leb, Bool-cases, u64, add64-eq, le→leb, leb→le,
}
use cthulhu_os.Process.MemMap.{
  Area, Hole, null, hole_at, fault, new_area, insert_at, request_loop, place_area, request_va_hole,
}
use mathlib.Core.Option

-- From `lo` on, each area begins behind the one before it, and all end below 2^64.
abbrev pub IsMap : ℕ → List Area → Type 0
IsMap lo [] = lo < u64
IsMap lo (m ∷ ms) = (lo ≤ m.vastart) × (m.vastart ≤ m.vaend) × IsMap m.vaend ms

pub lt_of_IsMap : (lo : ℕ) (ms : List Area) → IsMap lo ms → lo < u64
lt_of_IsMap lo [] h = h
lt_of_IsMap lo (m ∷ ms) h = omega (arith, lt_of_IsMap m.vaend ms h.2)

-- No area of the map meets `[start, end]`, the end included.
abbrev pub IsClear : ℕ → ℕ → List Area → Type 0
IsClear start end [] = Unit
IsClear start end (m ∷ ms) = ((m.vaend ≤ start) ⊎ (end < m.vastart)) × IsClear start end ms

-- What the loop of `request_va_hole` has found.
data Requested (lo start size : ℕ) (ms : List Area) : Option ℕ → Type 0 where
  overlap : (IsClear start (start + size) ms → ⊥) → Requested lo start size ms none
  place :
      {i : ℕ}
      → IsMap lo (insert_at i (new_area start (start + size)) ms)
      → IsClear start (start + size) ms
      → Requested lo start size ms (some i)

Clear_above : (start end lo : ℕ) (ms : List Area) → end < lo → IsMap lo ms → IsClear start end ms
Clear_above start end lo [] h v = tt
Clear_above start end lo (m ∷ ms) h v =
    (inr (omega arith), Clear_above start end m.vaend ms (omega arith) v.2)

Requested-cons :
    (lo start size : ℕ) (m : Area) (ms : List Area) {r : Option ℕ}
    → lo ≤ m.vastart
    → m.vastart ≤ m.vaend
    → m.vaend ≤ start
    → Requested m.vaend start size ms r
    → Requested lo start size (m ∷ ms) (Option.map suc r)
unfolding insert_at
Requested-cons lo start size m ms a b c (overlap met) = overlap (λ k. met k.1)
Requested-cons lo start size m ms a b c (place v k) = place (a, b, v) (inl c, k)

request_loop-Requested :
    (lo start size : ℕ) (ms : List Area)
    → IsMap lo ms
    → lo ≤ start
    → start + size < u64
    → Requested lo start size ms (request_loop start size ms)
unfolding request_loop insert_at
request_loop-Requested lo start size [] v h w = place (omega arith) tt
request_loop-Requested lo start size (m ∷ ms) v h w = elim (Bool-cases (leb m.vaend start)) [
  | inl e ↦ rw e (
      Requested-cons lo start size m ms v.0 v.1 (leb→le _ _ e)
        (request_loop-Requested m.vaend start size ms v.2 (leb→le _ _ e) w))
  | inr e ↦
      rw (e, add64-eq start size w, le→leb start m.vaend (ground arith))
        (elim (Bool-cases (leb m.vastart (start + size))) [
          | inl f ↦ rw f (overlap λ k. ground arith)
          | inr f ↦ rw f (
              place (h, omega arith, (ground arith, v.1, v.2))
                (
                  inr (ground arith),
                  Clear_above start (start + size) m.vaend ms (ground arith) v.2,
                ))
        ])
]

-- The result of `request_va_hole`, for a request that does not run past the end of the address
-- space: NULL below the first page, NULL at an area in the way, or the new area in its place.
abbrev pub Granted : ℕ → ℕ → List Area → Hole → Type 0
Granted start size ms null = (start < 0x1000) ⊎ (IsClear start (start + size) ms → ⊥)
Granted start size ms (hole_at i ms') =
    (0x1000 ≤ start)
    × IsClear start (start + size) ms
    × IsMap 0x1000 ms'
    × (ms' ≡ insert_at i (new_area start (start + size)) ms)
Granted start size ms fault = ⊥

-- In an ordered map, a request that does not wrap around and whose `malloc` succeeds is refused
-- exactly if it starts below the first page or an area meets its addresses, the end included;
-- otherwise the new area is linked in, nothing else changes, and the map stays ordered.
pub request_va_hole-Granted :
    (ms : List Area) (start size : ℕ)
    → IsMap 0x1000 ms
    → start + size < u64
    → Granted start size ms (request_va_hole true ms start size)
unfolding request_va_hole
request_va_hole-Granted ms start size v w = elim (Bool-cases (ltb start 0x1000)) [
  | inl low ↦ rw low (inl (ground arith))
  | inr high ↦
      rw (high, add64-eq start size w)
        (granted (ground arith) (request_loop-Requested 0x1000 start size ms v (ground arith) w))
]
  where
    granted :
        {r : Option ℕ}
        → 0x1000 ≤ start
        → Requested 0x1000 start size ms r
        → Granted start size ms (place_area true (new_area start (start + size)) ms r)
    granted h (overlap met) = inr met
    granted h (place o k) = (h, k, o, refl)
