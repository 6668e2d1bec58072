-- ===== src/Process/Creation/Blocks.antt =====
-- The blocks of the copies of strings, below other blocks: their release.
use cthulhu_os.Prelude.{
  ℕ, zero, suc, ◌+◌, ◌*◌, ◌<◌, ◌≡◌, refl, ◌⊎◌, inl, inr, Bool, true, false, some, List, [], ◌∷◌,
  ◌++◌, ◌==◌, arith, All, length, Bool-cases,
}
use cthulhu_os.Process.Creation.{
  Block, block_code, Heap, remove, released, free_block, free_strings, free_array, copy_loop,
  strings_copied, cpy_array, made, failed, enomem_internal,
}

abbrev pub heap : List Block → List Block → Heap
heap live faults = record { live = live; faults = faults }

-- None of the blocks is `b`.
abbrev pub IsAbsent : Block → List Block → Type 0
IsAbsent b xs = All (λ x. (block_code b == block_code x) ≡ false) xs

pub IsAbsent-append :
    (b : Block) (xs ys : List Block) → IsAbsent b xs → IsAbsent b ys → IsAbsent b (xs ++ ys)
IsAbsent-append b [] ys a a' = a'
IsAbsent-append b (x ∷ xs) ys (e, a) a' = (e, IsAbsent-append b xs ys a a')

pub append_assoc : (xs ys zs : List Block) → (xs ++ ys) ++ zs ≡ xs ++ (ys ++ zs)
append_assoc [] ys zs = refl
append_assoc (x ∷ xs) ys zs = rw (append_assoc xs ys zs)

pub remove-absent :
    (b : Block) (pre rest : List Block)
    → IsAbsent b pre
    → (block_code b == block_code b) ≡ true
    → remove b (pre ++ (b ∷ rest)) ≡ some (pre ++ rest)
unfolding remove
remove-absent b [] rest a e = rw e
remove-absent b (x ∷ pre) rest (n, a) e = rw (n, remove-absent b pre rest a e)

pub free_block-absent :
    (b : Block) (pre rest faults : List Block)
    → IsAbsent b pre
    → (block_code b == block_code b) ≡ true
    → free_block b (heap (pre ++ (b ∷ rest)) faults) ≡ heap (pre ++ rest) faults
unfolding free_block released
free_block-absent b pre rest faults a e = rw (remove-absent b pre rest a e)

-- The blocks of the strings from `j` on, `n` of them, the last one first.
abbrev pub copies : (ℕ → Block) → ℕ → ℕ → List Block
copies string j zero = []
copies string j (suc n) = copies string (suc j) n ++ (string j ∷ [])

module _ (string : ℕ → Block) (c : ℕ) (codes : (i : ℕ) → block_code (string i) ≡ c + 2 * i) where
  self : (j : ℕ) → (block_code (string j) == block_code (string j)) ≡ true
  self j = ground arith

  copies-IsAbsent : (j k n : ℕ) → j < k → IsAbsent (string j) (copies string k n)
  copies-IsAbsent j k zero h = tt
  copies-IsAbsent j k (suc n) h =
      IsAbsent-append (string j) (copies string (suc k) n) (string k ∷ [])
        (copies-IsAbsent j (suc k) n (omega arith)) (ground (arith, codes j, codes k), tt)

  pub free_strings-copies :
      (j n : ℕ) (pre rest faults : List Block)
      → ((i : ℕ) → IsAbsent (string i) pre)
      → free_strings string j n (heap (pre ++ (copies string j n ++ rest)) faults)
        ≡ heap (pre ++ rest) faults
  unfolding free_strings
  free_strings-copies j zero pre rest faults a = refl
  free_strings-copies j (suc n) pre rest faults a = rw (
    append_assoc (copies string (suc j) n) (string j ∷ []) rest,
    ← append_assoc pre (copies string (suc j) n) (string j ∷ rest),
    free_block-absent (string j) (pre ++ copies string (suc j) n) rest faults
        (IsAbsent-append (string j) pre (copies string (suc j) n) (a j)
          (copies-IsAbsent j (suc j) n (omega arith)))
        (self j),
    append_assoc pre (copies string (suc j) n) rest,
    free_strings-copies (suc j) n pre rest faults a,
  )

  -- `free_array` of an array whose table and strings are in use, below the blocks `pre`.
  pub free_array-copies :
      (table : Block) (n : ℕ) (pre rest faults : List Block)
      → ((i : ℕ) → IsAbsent (string i) pre)
      → IsAbsent table pre
      → (block_code table == block_code table) ≡ true
      → free_array table string n (heap (pre ++ (copies string 0 n ++ (table ∷ rest))) faults)
        ≡ heap (pre ++ rest) faults
  unfolding free_array
  free_array-copies table n pre rest faults a a' e = rw (
    free_strings-copies 0 n pre (table ∷ rest) faults a,
    free_block-absent table pre rest faults a' e,
  )

  pub copies-suc : (j n : ℕ) → copies string j (suc n) ≡ string (j + n) ∷ copies string j n
  copies-suc j zero = let e : j + 0 ≡ j = omega arith in rw e
  copies-suc j (suc n) = let e : suc j + n ≡ j + suc n = omega arith in rw (copies-suc (suc j) n, e)

  -- The loop either has every copy in use, or none.
  copy_loop-Ends :
      (grants : Block → Bool) (i : ℕ) (ss : List (List ℕ)) (rest faults : List Block)
      → (copy_loop grants string i ss (heap (copies string 0 i ++ rest) faults)
          ≡ (true, heap (copies string 0 (i + length ss) ++ rest) faults))
        ⊎ (copy_loop grants string i ss (heap (copies string 0 i ++ rest) faults)
            ≡ (false, heap rest faults))
  unfolding copy_loop
  copy_loop-Ends grants i [] rest faults = let e : i + 0 ≡ i = omega arith in inl (rw e)
  copy_loop-Ends grants i (s ∷ ss) rest faults = elim (Bool-cases (grants (string i))) [
    | inl g ↦
        let e : i + suc (length ss) ≡ suc i + length ss = omega arith in
        let z : 0 + i ≡ i = omega arith in
        rw (g, e) (rw (copies-suc 0 i, z) at (copy_loop-Ends grants (suc i) ss rest faults))
    | inr g ↦ inr (rw (g, free_strings-copies 0 i [] rest faults (λ k. tt)))
  ]

  -- A copied array has its table and its strings in use; a failure leaves the blocks as they were.
  pub cpy_array-Ends :
      (grants : Block → Bool) (table : Block) (array : List (List ℕ)) (rest faults : List Block)
      → (block_code table == block_code table) ≡ true
      → (cpy_array grants table string array (heap rest faults)
          ≡ made array (heap (copies string 0 (length array) ++ (table ∷ rest)) faults))
        ⊎ (cpy_array grants table string array (heap rest faults)
            ≡ failed enomem_internal (heap rest faults))
  unfolding cpy_array strings_copied
  cpy_array-Ends grants table array rest faults e = elim (Bool-cases (grants table)) [
    | inl g ↦ elim (copy_loop-Ends grants 0 array (table ∷ rest) faults) [
      | inl f ↦
          let e : 0 + length array ≡ length array = omega arith in
          inl (rw (g, f, e, strings_copied))
      | inr f ↦ inr (rw (g, f, strings_copied, free_block-absent table [] rest faults tt e))
    ]
    | inr g ↦ inr (rw g)
  ]
