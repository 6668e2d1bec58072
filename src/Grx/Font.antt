-- ===== src/Grx/Font.antt =====
-- The font (src/kernel/grx/font.c): 255 letters of 14 rows of a byte, whose bits `initialize_font`
-- reverses.
use cthulhu_os.Prelude.{
  ℕ, zero, suc, ◌+◌, ◌-◌, ◌*◌, ◌/◌, ◌%◌, ◌<◌, ◌≡◌, refl, sym, lt→ltb, Bool, true, false, ◌&&◌, ltb,
  if◌then◌else◌, u8, u32, arith,
}
use Prim.Native.Nat.{bit_and, bit_or}
use cthulhu_os.Memory.Paging.{bit}
use cthulhu_os.Grx.{Image, image_monochromatic, is_drawn}

-- A byte with its bits in the other order.
unfoldable pub reverse : ℕ → ℕ
reverse b =
    let b' = bit_or (bit_and b 0xF0 / 16) (bit_and b 0x0F * 16) in
    let b'' = bit_or (bit_and b' 0xCC / 4) (bit_and b' 0x33 * 4) in
    bit_or (bit_and b'' 0xAA / 2) (bit_and b'' 0x55 * 2)

unfoldable pub reversed_font : (ℕ → ℕ) → ℕ → ℕ
unfolding reverse
reversed_font font i = if ltb i (255 * 14) then reverse (font i) else font i

-- `__letters` after `initialize_font`; the last letter is not set.
unfoldable pub initialize_font : (ℕ → ℕ) → ℕ → Image
unfolding reversed_font
initialize_font font i =
    if ltb i 255
    then record {
      image_type = image_monochromatic;
      w = 8;
      h = 14;
      image_data = λ j. reversed_font font (i * 14 + j);
    }
    else record { image_type = image_monochromatic; w = 0; h = 0; image_data = λ j. 0 }

unfoldable pub get_letter : (ℕ → Image) → ℕ → Image
get_letter letters letter = letters (letter % u8)

-- Whether a test holds of all numbers below `n`.
all_below : ℕ → (ℕ → Bool) → Bool
all_below zero p = true
all_below (suc n) p = p n && all_below n p

all_below-true : (n : ℕ) (p : ℕ → Bool) (x : ℕ) → all_below n p ≡ true → x < n → p x ≡ true
unfolding all_below
all_below-true zero p x h lt = absurd (omega arith)
all_below-true (suc n) p x h lt = ground (arith, all_below-true n p x)

abbrev is_mirrored : ℕ → ℕ → Bool
unfolding bit reverse
is_mirrored v i =
    if bit v (7 - i) then bit (reverse v) i else (if bit (reverse v) i then false else true)

mirror_table : all_below 256 (λ v. all_below 8 (is_mirrored v)) ≡ true
unfolding all_below is_mirrored
mirror_table = refl

bit-reverse : (v i : ℕ) → v < 256 → i < 8 → bit (reverse v) i ≡ bit v (7 - i)
unfolding is_mirrored
bit-reverse v i a b = go (bit v (7 - i)) (bit (reverse v) i) (
    all_below-true 8 (is_mirrored v) i
      (all_below-true 256 (λ v. all_below 8 (is_mirrored v)) v mirror_table a) b)
  where
    go : (x y : Bool) → (if x then y else (if y then false else true)) ≡ true → y ≡ x
    go true y h = h
    go false true h = sym h
    go false false h = refl

-- After `initialize_font`, the pixel of a letter below 255 in column `i` of row `j` is drawn exactly if
-- bit `7 - i` of that row of the font was set: the leftmost pixel is the highest bit.
pub is_drawn-initialize_font :
    (font : ℕ → ℕ) (letter i j : ℕ)
    → font (letter * 14 + j) < 256
    → letter < 255
    → i < 8
    → j < 14
    → is_drawn (get_letter (initialize_font font) letter) i j ≡ bit (font (letter * 14 + j)) (7 - i)
unfolding is_drawn get_letter initialize_font
is_drawn-initialize_font font letter i j byte small a b =
    let same : letter % u8 ≡ letter = omega arith in
    let at : (j * 8 + i) % u32 / 8 ≡ j = omega arith in
    let column : (j * 8 + i) % u32 % 8 ≡ i = omega arith in
    rw
      (same, lt→ltb letter 255 small, at, column, lt→ltb (letter * 14 + j) (255 * 14) (omega arith))
      (bit-reverse (font (letter * 14 + j)) i byte a)
