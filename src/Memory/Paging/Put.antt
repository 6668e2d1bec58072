-- ===== src/Memory/Paging/Put.antt =====
-- A write to the entry of a page: the other pages stay.
use cthulhu_os.Prelude.{
  ℕ, suc, ◌≡◌, refl, sym, ap, ◌∙◌, ◌≢◌, ◌⊎◌, inl, inr, Option, none, some, List, [], ◌∷◌, arith,
  Bool-cases,
}
use cthulhu_os.Memory.Frames.{align}
use cthulhu_os.Memory.Paging.{present, Words, set_word}
use cthulhu_os.Memory.Paging.Entry.{set_word_self, set_word_ne}
use cthulhu_os.Memory.Paging.Walk.{
  Owners, Down, down_to, word_of, entry, size, level_ne, down_to-owner, onto, onto-injective,
}
use mathlib.Core.Option.{some-injective}

-- The tables hold what they held, but for `e` at the entry `j` of `u`, a table of the last level.
pub record Put (own : Owners) (words : Words) (u j e : ℕ) (words' : Words) : Type 0 where
  pub path : List ℕ
  pub last : own u ≡ some (0, path)
  pub tables : (x y : ℕ) (v : ℕ × List ℕ) → own x ≡ some v → words' x y ≡ set_word words u j e x y

pub Put-upper :
    (own : Owners) (words words' : Words) (u j e x y k : ℕ) (p : List ℕ)
    → Put own words u j e words'
    → own x ≡ some (suc k, p)
    → words' x y ≡ words x y
Put-upper own words words' u j e x y k p h o =
    h.tables x y (suc k, p) o
    ∙ set_word_ne words u j e x y (inl (level_ne own x u o h.last (omega arith)))

pub Put-Down :
    (own : Owners) (words words' : Words) (u j e : ℕ)
    → Put own words u j e words'
    → Down own words
    → Down own words'
Put-Down own words words' u j e h d x y k p o there_is =
    let same = Put-upper own words words' u j e x y k p h o in
    ap (λ a. own (align a)) same ∙ d x y k p o (ap present (sym same) ∙ there_is)

down_to-Put :
    (own : Owners) (words words' : Words) (u j e x : ℕ) (is p : List ℕ)
    → Put own words u j e words'
    → Down own words
    → own x ≡ some (size is, p)
    → down_to words' x is ≡ down_to words x is
down_to-Put own words words' u j e x [] p h d o = refl
down_to-Put own words words' u j e x (i ∷ is) p h d o =
    let same = Put-upper own words words' u j e x i (size is) p h o in
    elim (Bool-cases (present (words x i))) [
      | inl is_there ↦
          let ih =
            down_to-Put own words words' u j e (align (words x i)) is (i ∷ p) h d
              (d x i (size is) p o is_there) in
          rw (same, is_there) ih
      | inr not_there ↦ rw (same, not_there) refl
    ]

pub Put-entry :
    (own : Owners) (words words' : Words) (u j e x : ℕ) (is p : List ℕ)
    → Put own words u j e words'
    → Down own words
    → own x ≡ some (size is, p)
    → down_to words x is ≡ some u
    → entry words' x is j ≡ e
Put-entry own words words' u j e x is p h d o at =
    ap (λ t. word_of words' t j) (down_to-Put own words words' u j e x is p h d o ∙ at)
    ∙ h.tables u j (0, h.path) h.last
    ∙ set_word_self words u j e

pub Put-others :
    (own : Owners) (words words' : Words) (u j e x j' : ℕ) (is is' p : List ℕ)
    → Put own words u j e words'
    → Down own words
    → own x ≡ some (size is, p)
    → down_to words x is ≡ some u
    → size is' ≡ size is
    → (is' ≢ is) ⊎ (j' ≢ j)
    → entry words' x is' j' ≡ entry words x is' j'
Put-others own words words' u j e x j' is is' p h d o at s ne =
    ap (λ t. word_of words' t j') (down_to-Put own words words' u j e x is' p h d o')
    ∙ go (down_to words x is') refl
  where
    o' : own x ≡ some (size is', p)
    o' = o ∙ ap (λ n. some (n, p)) (sym s)

    differs : (u' : ℕ) → down_to words x is' ≡ some u' → (u' ≢ u) ⊎ (j' ≢ j)
    differs u' at' = elim ne [
      | inl ne' ↦ inl (λ e'.
          ne'
            (onto-injective is' is p p s (
              ap (λ (v : ℕ × List ℕ). v.1)
                (some-injective _ _ (
                  sym (down_to-owner own words x u' p is' d o' at')
                  ∙ ap own e'
                  ∙ down_to-owner own words x u p is d o at)))).0)
      | inr ne' ↦ inr ne'
    ]

    go : (r : Option ℕ) → down_to words x is' ≡ r → word_of words' r j' ≡ word_of words r j'
    go none q = refl
    go (some u') q =
        h.tables u' j' (0, onto is' p) (down_to-owner own words x u' p is' d o' q)
        ∙ set_word_ne words u j e u' j' (differs u' q)
