-- ===== src/Utils/Hex.antt =====
-- Hexadecimal numbers as text (src/kernel/utils/kstdlib.c: `bytetohex`, `hextochar`). Characters
-- are their codes.
use cthulhu_os.Prelude.{
  ℕ, ◌+◌, ◌/◌, ◌%◌, ◌^◌, ◌<◌, ◌≡◌, refl, ap, ◌∙◌, ltb, List, [], ◌∷◌, ◌==◌, if◌then◌else◌, u8,
  arith,
}

unfoldable pub bytetohex : ℕ → ℕ
bytetohex byte =
    if byte == 10
    then 0x41
    else if byte == 11
    then 0x42
    else if byte == 12
    then 0x43
    else if byte == 13
    then 0x44
    else if byte == 14
    then 0x45
    else if byte == 15
    then 0x46
    else (0x30 + byte) % u8

-- The buffer without the zero at its end; the arguments of `bytetohex` are `uint8_t`.
unfoldable pub hextochar : ℕ → List ℕ
unfolding bytetohex
hextochar num =
    0x30
    ∷ 0x78
    ∷ bytetohex (num / 2 ^ 24 / 16 % u8)
    ∷ bytetohex (num / 2 ^ 24 % 16 % u8)
    ∷ bytetohex (num / 2 ^ 16 / 16 % u8)
    ∷ bytetohex (num / 2 ^ 16 % 16 % u8)
    ∷ bytetohex (num / 2 ^ 8 / 16 % u8)
    ∷ bytetohex (num / 2 ^ 8 % 16 % u8)
    ∷ bytetohex (num % 256 / 16 % u8)
    ∷ bytetohex (num % 256 % 16 % u8)
    ∷ []

-- The character of a digit, and the digits of a 32-bit number.
abbrev pub hex_digit : ℕ → ℕ
hex_digit d = if ltb d 10 then 0x30 + d else 0x37 + d

abbrev pub digit : ℕ → ℕ → ℕ
digit num k = hex_digit (num / 16 ^ k % 16)

abbrev pub hexadecimal : ℕ → List ℕ
hexadecimal num =
    0x30
    ∷ 0x78
    ∷ digit num 7
    ∷ digit num 6
    ∷ digit num 5
    ∷ digit num 4
    ∷ digit num 3
    ∷ digit num 2
    ∷ digit num 1
    ∷ digit num 0
    ∷ []

bytetohex-hex_digit : (d : ℕ) → d < 16 → bytetohex d ≡ hex_digit d
unfolding bytetohex
bytetohex-hex_digit d h = ground arith

bytetohex-digit : (b num k : ℕ) → b < 16 → b ≡ num / 16 ^ k % 16 → bytetohex b ≡ digit num k
bytetohex-digit b num k h e = bytetohex-hex_digit b h ∙ ap hex_digit e

-- `hextochar` writes a number below 2 ^ 16 in hexadecimal.
pub hextochar-hexadecimal : (num : ℕ) → num < 2 ^ 16 → hextochar num ≡ hexadecimal num
unfolding hextochar
hextochar-hexadecimal num h =
    rw
      (
        bytetohex-digit (num / 2 ^ 24 / 16 % u8) num 7 (omega arith) (omega arith),
        bytetohex-digit (num / 2 ^ 24 % 16 % u8) num 6 (omega arith) (omega arith),
        bytetohex-digit (num / 2 ^ 16 / 16 % u8) num 5 (omega arith) (omega arith),
        bytetohex-digit (num / 2 ^ 16 % 16 % u8) num 4 (omega arith) (omega arith),
        bytetohex-digit (num / 2 ^ 8 / 16 % u8) num 3 (omega arith) (omega arith),
        bytetohex-digit (num / 2 ^ 8 % 16 % u8) num 2 (omega arith) (omega arith),
        bytetohex-digit (num % 256 / 16 % u8) num 1 (omega arith) (omega arith),
        bytetohex-digit (num % 256 % 16 % u8) num 0 (omega arith) (omega arith),
      )
      refl
