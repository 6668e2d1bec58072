-- ===== src/Memory/Paging/Entry.antt =====
-- The entries of the page tables and the words of the memory.
use cthulhu_os.Prelude.{
  ℕ, ◌/◌, ◌%◌, ◌^◌, ◌<◌, ◌≡◌, refl, ap, ◌≢◌, ◌⊎◌, Bool, true, false, arith, if◌then◌else◌, List, [],
  ◌∷◌,
}
use cthulhu_os.Memory.Frames.{align}
use cthulhu_os.Memory.Paging.{
  bit, set_bit, present, path, table, Words, set_word, fill, table_entry, page_entry,
}

pub table_entry-lem :
    (f : ℕ) (user : Bool)
    → f % 0x1000 ≡ 0
    → (present (table_entry f user) ≡ true) × (align (table_entry f user) ≡ f)
unfolding present bit table_entry set_bit align
table_entry-lem f true h = (ground arith, omega arith)
table_entry-lem f false h = (ground arith, omega arith)

-- An entry of a page is present, and leads to its frame but for the bit `xd`.
pub page_entry-lem :
    (f : ℕ) (kernel readonly exec : Bool)
    → f % 0x1000 ≡ 0
    → f < 2 ^ 63
    → (let e = page_entry f kernel readonly exec in
        (present e ≡ true) × ((if exec then align e % 2 ^ 63 else align e) ≡ f))
unfolding present bit page_entry set_bit align
page_entry-lem f true true true h small = (ground arith, omega arith)
page_entry-lem f true false true h small = (ground arith, omega arith)
page_entry-lem f false true true h small = (ground arith, omega arith)
page_entry-lem f false false true h small = (ground arith, omega arith)
page_entry-lem f true true false h small = (ground arith, omega arith)
page_entry-lem f true false false h small = (ground arith, omega arith)
page_entry-lem f false true false h small = (ground arith, omega arith)
page_entry-lem f false false false h small = (ground arith, omega arith)

pub page_entry-present :
    (f : ℕ) (kernel readonly : Bool)
    → f % 0x1000 ≡ 0
    → present (page_entry f kernel readonly false) ≡ true
unfolding present bit page_entry set_bit
page_entry-present f true true h = ground arith
page_entry-present f true false h = ground arith
page_entry-present f false true h = ground arith
page_entry-present f false false h = ground arith

-- The number of the page of an address, from the 48 bits that the tables use.
abbrev pub page_number : ℕ → ℕ
page_number v = v / 0x1000 % 2 ^ 36

pub set_word_self : (words : Words) (t i e : ℕ) → set_word words t i e t i ≡ e
unfolding set_word
set_word_self words t i e = ground arith

pub set_word_ne :
    (words : Words) (t i e f j : ℕ) → (f ≢ t) ⊎ (j ≢ i) → set_word words t i e f j ≡ words f j
unfolding set_word
set_word_ne words t i e f j h = ground arith

pub fill_self : (words : Words) (t w j : ℕ) → fill words t w t j ≡ w
unfolding fill
fill_self words t w j = ground arith

pub fill_ne : (words : Words) (t w f j : ℕ) → f ≢ t → fill words t w f j ≡ words f j
unfolding fill
fill_ne words t w f j h = ground arith

-- Two addresses with the same four indices are in the same page, and only these.
pub same_page : (v v' : ℕ) → path v ≡ path v' → table v ≡ table v' → page_number v ≡ page_number v'
unfolding path table
same_page v v' p t =
    let a : v / 2 ^ 39 % 512 ≡ v' / 2 ^ 39 % 512 = ap head p in
    let b : v / 2 ^ 30 % 512 ≡ v' / 2 ^ 30 % 512 = ap (λ l. head (tail l)) p in
    let c : v / 2 ^ 21 % 512 ≡ v' / 2 ^ 21 % 512 = ap (λ l. head (tail (tail l))) p in omega arith
  where
    head : List ℕ → ℕ
    head [] = 0
    head (x ∷ xs) = x

    tail : List ℕ → List ℕ
    tail [] = []
    tail (x ∷ xs) = xs

pub path-page :
    (v v' : ℕ) → page_number v ≡ page_number v' → (path v ≡ path v') × (table v ≡ table v')
unfolding path table
path-page v v' h =
    let a : v / 2 ^ 39 % 512 ≡ v' / 2 ^ 39 % 512 = omega arith in
    let b : v / 2 ^ 30 % 512 ≡ v' / 2 ^ 30 % 512 = omega arith in
    let c : v / 2 ^ 21 % 512 ≡ v' / 2 ^ 21 % 512 = omega arith in (rw (a, b, c) refl, omega arith)
