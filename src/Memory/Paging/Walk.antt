-- ===== src/Memory/Paging/Walk.antt =====
-- The tree of the page tables: what a new table and a write to a page change.
use cthulhu_os.Prelude.{
  ℕ, suc, ◌≡◌, refl, sym, ap, ◌∙◌, ◌≢◌, Bool, true, false, Option, none, some, List, [], ◌∷◌, arith,
  if◌then◌else◌,
}
use cthulhu_os.Memory.Frames.{align}
use cthulhu_os.Memory.Frames.Pool.{first_or_zero, rest_of}
use cthulhu_os.Memory.Paging.{present, Words}
use mathlib.Core.Option.{some-injective, some-ne-none}

-- Which frames are tables: the levels below, and the indices that lead there, the last one first.
abbrev pub Owners : Type 0
Owners = ℕ → Option (ℕ × List ℕ)

-- The table that the indices lead to, from the table `t` on.
abbrev pub down_to : Words → ℕ → List ℕ → Option ℕ
down_to words t [] = some t
down_to words t (i ∷ is) =
    let further = down_to words (align (words t i)) is in
    if present (words t i) then further else none

abbrev pub word_of : Words → Option ℕ → ℕ → ℕ
word_of words none j = 0
word_of words (some t) j = words t j

abbrev pub entry : Words → ℕ → List ℕ → ℕ → ℕ
entry words t is j = word_of words (down_to words t is) j

abbrev pub size : List ℕ → ℕ
size [] = 0
size (i ∷ is) = suc (size is)

abbrev pub onto : List ℕ → List ℕ → List ℕ
onto [] p = p
onto (i ∷ is) p = onto is (i ∷ p)

-- Every present entry of a table leads to the table that belongs there.
abbrev pub Down : Owners → Words → Type 0
Down own words =
    (x y k : ℕ) (p : List ℕ)
    → own x ≡ some (suc k, p)
    → present (words x y) ≡ true
    → own (align (words x y)) ≡ some (k, y ∷ p)

pub some-none : {A : Type 0} {a : Option A} {v : A} → a ≡ some v → a ≢ none
some-none {v = v} p q = some-ne-none v (sym p ∙ q)

-- A result that stands under a test.
pub if_some :
    {A : Type 0} {v : A} (b : Bool) (x : Option A)
    → (if b then x else none) ≡ some v
    → (b ≡ true) × (x ≡ some v)
if_some true x h = (refl, h)
if_some false x h = absurd (some-none h refl)

pub owner_ne : (own : Owners) (x t : ℕ) {v : ℕ × List ℕ} → own x ≡ some v → own t ≡ none → x ≢ t
owner_ne own x t p q e = some-none p (ap own e ∙ q)

pub level_ne :
    (own : Owners) (x t : ℕ) {n k : ℕ} {p q : List ℕ}
    → own x ≡ some (n, p)
    → own t ≡ some (k, q)
    → n ≢ k
    → x ≢ t
level_ne own x t p q ne e = ne (ap (λ v. v.0) (some-injective _ _ (sym p ∙ ap own e ∙ q)))

pub down_to-owner :
    (own : Owners) (words : Words) (x u : ℕ) (p is : List ℕ)
    → Down own words
    → own x ≡ some (size is, p)
    → down_to words x is ≡ some u
    → own u ≡ some (0, onto is p)
down_to-owner own words x u p [] d o h = ap own (sym (some-injective _ _ h)) ∙ o
down_to-owner own words x u p (i ∷ is) d o h =
    let t = if_some (present (words x i)) (down_to words (align (words x i)) is) h in
    down_to-owner own words (align (words x i)) u (i ∷ p) is d (d x i (size is) p o t.0) t.1

-- Different indices of the same number lead to different tables.
pub onto-injective :
    (is is' p q : List ℕ) → size is ≡ size is' → onto is p ≡ onto is' q → (is ≡ is') × (p ≡ q)
onto-injective [] [] p q s h = (refl, h)
onto-injective [] (i ∷ is') p q s h = absurd (omega arith)
onto-injective (i ∷ is) [] p q s h = absurd (omega arith)
onto-injective (i ∷ is) (i' ∷ is') p q s h =
    let r = onto-injective is is' (i ∷ p) (i' ∷ q) (omega arith) h in
    (rw (ap first_or_zero r.1, r.0) refl, ap rest_of r.1)

-- What a change of the memory keeps: the tables, their present entries, and what every sequence of
-- indices leads to.
pub record Extends (own : Owners) (words : Words) (own' : Owners) (words' : Words) : Type 0 where
  pub owners : (x : ℕ) (v : ℕ × List ℕ) → own x ≡ some v → own' x ≡ some v
  pub keeps :
      (x y : ℕ) (v : ℕ × List ℕ)
      → own x ≡ some v
      → present (words x y) ≡ true
      → words' x y ≡ words x y
  pub same :
      (x j : ℕ) (is p : List ℕ)
      → own x ≡ some (size is, p)
      → entry words' x is j ≡ entry words x is j

pub Extends-refl : (own : Owners) (words : Words) → Extends own words own words
Extends-refl own words = record {
  owners = λ x v o. o;
  keeps = λ x y v o h. refl;
  same = λ x j is p o. refl;
}

pub Extends-trans :
    {o1 o2 o3 : Owners} {w1 w2 w3 : Words}
    → Extends o1 w1 o2 w2
    → Extends o2 w2 o3 w3
    → Extends o1 w1 o3 w3
Extends-trans {w1 = w1} e f = record {
  owners = λ x v o. f.owners x v (e.owners x v o);
  keeps = λ x y v o h.
      let k = e.keeps x y v o h in f.keeps x y v (e.owners x v o) (ap present k ∙ h) ∙ k;
  same = λ x j is p o. f.same x j is p (e.owners x (size is, p) o) ∙ e.same x j is p o;
}

-- A table full of zeros leads nowhere.
pub zeros :
    (words : Words) (t j : ℕ) (is : List ℕ) → ((y : ℕ) → words t y ≡ 0) → entry words t is j ≡ 0
unfolding present
zeros words t j [] z = z j
zeros words t j (i ∷ is) z = rw (z i) refl

-- Further tables do not change the way through present entries.
pub down_to-Extends :
    {own own' : Owners} {words words' : Words} (x u : ℕ) (is p : List ℕ)
    → Extends own words own' words'
    → Down own words
    → own x ≡ some (size is, p)
    → down_to words x is ≡ some u
    → down_to words' x is ≡ some u
down_to-Extends x u [] p e d o h = h
down_to-Extends {words = words} {words' = words'} x u (i ∷ is) p e d o h =
    let t = if_some (present (words x i)) (down_to words (align (words x i)) is) h in
    let k = e.keeps x i (size (i ∷ is), p) o t.0 in
    rw (k, t.0) (down_to-Extends (align (words x i)) u is (i ∷ p) e d (d x i (size is) p o t.0) t.1)
