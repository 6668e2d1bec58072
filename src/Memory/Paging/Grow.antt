-- ===== src/Memory/Paging/Grow.antt =====
-- A new table, and a write to a page: what they do to the tree of the page tables.
use cthulhu_os.Prelude.{
  ℕ, suc, ◌≡◌, refl, sym, ap, ◌∙◌, ◌≢◌, ◌⊎◌, inl, inr, true, false, none, some, List, [], ◌∷◌,
  arith, ◌==◌, if◌then◌else◌, Bool-cases,
}
use cthulhu_os.Memory.Frames.{align}
use cthulhu_os.Memory.Paging.{bit, present, Words, set_word, fill}
use cthulhu_os.Memory.Paging.Entry.{set_word_self, set_word_ne, fill_self, fill_ne}
use cthulhu_os.Memory.Paging.Walk.{Owners, Down, entry, size, Extends, zeros, owner_ne, level_ne}
use mathlib.Core.Option.{some-injective}

pub eq_or_ne : (a b : ℕ) → (a ≡ b) ⊎ (a ≢ b)
eq_or_ne a b = elim (Bool-cases (a == b)) [
  | inl e ↦ inl (ground arith)
  | inr e ↦ inr (ground arith)
]

abbrev pub with_table : Owners → ℕ → ℕ × List ℕ → Owners
with_table own f v x = if x == f then some v else own x

pub with_table_self : (own : Owners) (f : ℕ) (v : ℕ × List ℕ) → with_table own f v f ≡ some v
with_table_self own f v = let e : (f == f) ≡ true = ground arith in rw e refl

pub with_table_ne : (own : Owners) (f x : ℕ) (v : ℕ × List ℕ) → x ≢ f → with_table own f v x ≡ own x
with_table_ne own f x v h = let e : (x == f) ≡ false = ground arith in rw e refl

-- What a new table needs: a free entry of a table that has levels below, and a frame that is none.
pub record Fresh (own : Owners) (words : Words) (t i n : ℕ) (p : List ℕ) (f e : ℕ) : Type 0 where
  pub table : own t ≡ some (suc n, p)
  pub unused : present (words t i) ≡ false
  pub spare : own f ≡ none
  pub on : present e ≡ true
  pub leads : align e ≡ f

abbrev pub grown : Words → ℕ → ℕ → ℕ → ℕ → Words
grown words t i f e = fill (set_word words t i e) f 0

pub grown-entry :
    (own : Owners) (words : Words) (t i n : ℕ) (p : List ℕ) (f e : ℕ)
    → Fresh own words t i n p f e
    → grown words t i f e t i ≡ e
grown-entry own words t i n p f e h =
    fill_ne (set_word words t i e) f 0 t i (owner_ne own t f h.table h.spare)
    ∙ set_word_self words t i e

grown-ne :
    (own : Owners) (words : Words) (t i f e x y : ℕ) {v : ℕ × List ℕ}
    → own f ≡ none
    → own x ≡ some v
    → (x ≢ t) ⊎ (y ≢ i)
    → grown words t i f e x y ≡ words x y
grown-ne own words t i f e x y sp o h =
    fill_ne (set_word words t i e) f 0 x y (owner_ne own x f o sp) ∙ set_word_ne words t i e x y h

-- A position of the entry that is written, or another one.
at_or_not : (x t y i : ℕ) → ((x ≡ t) × (y ≡ i)) ⊎ ((x ≢ t) ⊎ (y ≢ i))
at_or_not x t y i = elim (eq_or_ne x t) [
  | inr ne ↦ inr (inl ne)
  | inl e ↦ elim (eq_or_ne y i) [ inl e' ↦ inl (e, e') | inr ne ↦ inr (inr ne) ]
]

absent-entry :
    (words : Words) (x i j : ℕ) (is : List ℕ)
    → present (words x i) ≡ false
    → entry words x (i ∷ is) j ≡ 0
absent-entry words x i j is h = rw h refl

present-entry :
    (words : Words) (x i j : ℕ) (is : List ℕ)
    → present (words x i) ≡ true
    → entry words x (i ∷ is) j ≡ entry words (align (words x i)) is j
present-entry words x i j is h = rw h refl

grown-same :
    (own : Owners) (words : Words) (t i n : ℕ) (p : List ℕ) (f e : ℕ)
    → Fresh own words t i n p f e
    → Down own words
    → (x j : ℕ) (is q : List ℕ) → own x ≡ some (size is, q)
    → entry (grown words t i f e) x is j ≡ entry words x is j
grown-same own words t i n p f e h d x j [] q o =
    grown-ne own words t i f e x j h.spare o (inl (level_ne own x t o h.table (omega arith)))
grown-same own words t i n p f e h d x j (y ∷ is) q o = elim (at_or_not x t y i) [
  | inl same ↦
      let w' = grown words t i f e in
      let there_is : w' x y ≡ e =
        ap (λ x'. w' x' y) same.0 ∙ ap (w' t) same.1 ∙ grown-entry own words t i n p f e h in
      let was : words x y ≡ words t i = ap (λ x'. words x' y) same.0 ∙ ap (words t) same.1 in
      present-entry w' x y j is (ap present there_is ∙ h.on)
      ∙ ap (λ a. entry w' a is j) (ap align there_is ∙ h.leads)
      ∙ zeros w' f j is (fill_self (set_word words t i e) f 0)
      ∙ sym (absent-entry words x y j is (ap present was ∙ h.unused))
  | inr other ↦
      let same = grown-ne own words t i f e x y h.spare o other in
      elim (Bool-cases (present (words x y))) [
        | inl is_there ↦
            present-entry (grown words t i f e) x y j is (ap present same ∙ is_there)
            ∙ ap (λ a. entry (grown words t i f e) (align a) is j) same
            ∙ grown-same own words t i n p f e h d (align (words x y)) j is (y ∷ q)
                (d x y (size is) q o is_there)
            ∙ sym (present-entry words x y j is is_there)
        | inr not_there ↦
            absent-entry (grown words t i f e) x y j is (ap present same ∙ not_there)
            ∙ sym (absent-entry words x y j is not_there)
      ]
]

pub grown-Extends :
    (own : Owners) (words : Words) (t i n : ℕ) (p : List ℕ) (f e : ℕ)
    → Fresh own words t i n p f e
    → Down own words
    → Extends own words (with_table own f (n, i ∷ p)) (grown words t i f e)
grown-Extends own words t i n p f e h d = record {
  owners = λ x v o. with_table_ne own f x (n, i ∷ p) (owner_ne own x f o h.spare) ∙ o;
  keeps = λ x y v o there_is. grown-ne own words t i f e x y h.spare o (differs x y there_is);
  same = grown-same own words t i n p f e h d;
}
  where
    differs : (x y : ℕ) → present (words x y) ≡ true → (x ≢ t) ⊎ (y ≢ i)
    differs x y there_is = elim (at_or_not x t y i) [
      | inl s ↦
          let clash : true ≡ false =
            sym there_is
            ∙ ap (λ x'. present (words x' y)) s.0
            ∙ ap (λ y'. present (words t y')) s.1
            ∙ h.unused in
          absurd (ground arith)
      | inr other ↦ other
    ]

pub grown-Down :
    (own : Owners) (words : Words) (t i n : ℕ) (p : List ℕ) (f e : ℕ)
    → Fresh own words t i n p f e
    → Down own words
    → Down (with_table own f (n, i ∷ p)) (grown words t i f e)
unfolding present bit
grown-Down own words t i n p f e h d x y k q o there_is = elim (eq_or_ne x f) [
  | inl e' ↦
      let zero_word =
        ap (λ x'. grown words t i f e x' y) e' ∙ fill_self (set_word words t i e) f 0 y in
      let clash : false ≡ true = sym (ap present zero_word) ∙ there_is in absurd (ground arith)
  | inr ne ↦
      let o' = sym (with_table_ne own f x (n, i ∷ p) ne) ∙ o in
      elim (at_or_not x t y i) [
        | inl s ↦
            let w' = grown words t i f e in
            let word =
              ap (λ x'. w' x' y) s.0 ∙ ap (w' t) s.1 ∙ grown-entry own words t i n p f e h in
            let c = some-injective _ _ (sym h.table ∙ ap own (sym s.0) ∙ o') in
            let c0 = ap (λ (v : ℕ × List ℕ). v.0) c in
            let level : n ≡ k = omega arith in
            ap (λ a. with_table own f (n, i ∷ p) (align a)) word
            ∙ ap (with_table own f (n, i ∷ p)) h.leads
            ∙ with_table_self own f (n, i ∷ p)
            ∙ ap (λ a. some (a, i ∷ p)) level
            ∙ ap (λ b. some (k, b ∷ p)) (sym s.1)
            ∙ ap (λ b. some (k, y ∷ b)) (ap (λ (v : ℕ × List ℕ). v.1) c)
        | inr other ↦
            let same = grown-ne own words t i f e x y h.spare o' other in
            let child = d x y k q o' (ap present (sym same) ∙ there_is) in
            ap (λ a. with_table own f (n, i ∷ p) (align a)) same
            ∙ with_table_ne own f (align (words x y)) (n, i ∷ p)
                (owner_ne own (align (words x y)) f child h.spare)
            ∙ child
      ]
]
