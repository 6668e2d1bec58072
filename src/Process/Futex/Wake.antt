-- ===== src/Process/Futex/Wake.antt =====
-- Which threads `futex_wake` wakes (src/kernel/processes/scheduler.c).
use cthulhu_os.Prelude.{
  ℕ, zero, suc, ◌≡◌, Bool, true, false, List, [], ◌∷◌, ◌++◌, ◌==◌, if◌then◌else◌,
}
use cthulhu_os.Process.Futex.{Futexes}

abbrev pub take : ℕ → List ℕ → List ℕ
take zero ts = []
take (suc n) [] = []
take (suc n) (t ∷ ts) = t ∷ take n ts

abbrev pub drop : ℕ → List ℕ → List ℕ
drop zero ts = ts
drop (suc n) [] = []
drop (suc n) (t ∷ ts) = drop n ts

-- A thread in a list.
abbrev pub is_in : ℕ → List ℕ → Bool
is_in t [] = false
is_in t (u ∷ ts) = if t == u then true else is_in t ts

-- What the loop leaves on a processor other than 0.
record Woken (num : ℕ) (ts : List ℕ) (s : Futexes) (r : List ℕ × Futexes) : Type 0 where
  pub left : r.0 ≡ drop num ts
  pub ready : r.1.ready ≡ s.ready ++ take num ts
  pub blocked : (t : ℕ) → r.1.blocked t ≡ (if is_in t (take num ts) then false else s.blocked t)
  pub table : r.1.table ≡ s.table
