-- ===== src/Utils/Console/Cursor.antt =====
-- Where the cursor can be in text mode, and which cells are written
-- (src/kernel/utils/textinput.c).
use cthulhu_os.Prelude.{
  All, ℕ, ◌+◌, ◌-◌, ◌*◌, ◌/◌, ◌%◌, ◌≤◌, ◌<◌, ◌≡◌, ◌≢◌, ◌⊎◌, refl, ◌∙◌, inl, inr, false, not, ◌&&◌,
  ◌||◌, List, [], ◌∷◌, ltb, leb, ◌==◌, if◌then◌else◌, le→ltb, u8, u32, Bool-cases, arith,
}
use cthulhu_os.Grx.{Color, Image, Screen}
use cthulhu_os.Utils.Console.{
  Console, scroll_text, scroll, move_cursor, put_letter, put_char, wrap_line, kd_cput, kd_cwrite,
}

-- The text mode of 80 columns with the cursor in it; `h` is what the code takes for the height, 24 or
-- what the boot loader tells, and the lines are counted from 0 to `h`.
pub record IsText (h : ℕ) (k : Console) : Type 0 where
  pub text_mode : k.graphics ≡ false
  pub width : k.screen.w ≡ 80
  pub height : k.screen.h ≡ h
  pub column : k.cursor_x < 80
  pub row : k.cursor_y ≤ h

-- A step of `kd_cput`: the mode stays, the cursor is at most one line below, and only then at the
-- left, and no cell behind the lines changes.
record Step (h : ℕ) (k k' : Console) : Type 0 where
  pub text_mode : k'.graphics ≡ false
  pub width : k'.screen.w ≡ 80
  pub height : k'.screen.h ≡ h
  pub column : k'.cursor_x ≤ 80
  pub row : (k'.cursor_y ≤ h) ⊎ ((k'.cursor_x ≡ 0) × (k'.cursor_y ≡ h + 1))
  pub behind : (i : ℕ) → (h + 1) * 80 ≤ i → k'.text i ≡ k.text i

-- After the end of a line has been seen to, and after the screen has moved up.
record Wrapped (h : ℕ) (k k' : Console) (last : ℕ) : Type 0 where
  pub text_mode : k'.graphics ≡ false
  pub width : k'.screen.w ≡ 80
  pub height : k'.screen.h ≡ h
  pub column : k'.cursor_x < 10
  pub row : k'.cursor_y ≤ last
  pub behind : (i : ℕ) → (h + 1) * 80 ≤ i → k'.text i ≡ k.text i

wrap_line-Wrapped :
    (h : ℕ) (k k' : Console) → h < 100 → Step h k k' → Wrapped h k (wrap_line k') (h + 1)
unfolding wrap_line
wrap_line-Wrapped h k k' small v =
    elim (Bool-cases (leb 80 k'.cursor_x && not k'.graphics || leb (k'.screen.w / 8) k'.cursor_x)) [
      | inl e ↦ rw e record {
        text_mode = v.text_mode;
        width = v.width;
        height = v.height;
        column = omega arith;
        row = ground (arith, v.row, v.width);
        behind = v.behind;
      }
      | inr e ↦ rw e record {
        text_mode = v.text_mode;
        width = v.width;
        height = v.height;
        column = ground (arith, v.width);
        row = ground (arith, v.row);
        behind = v.behind;
      }
    ]

scroll_text-behind :
    (h : ℕ) (s : Screen) (text : ℕ → ℕ) (i : ℕ)
    → h < 100
    → s.w ≡ 80
    → s.h ≡ h
    → (h + 1) * 80 ≤ i
    → scroll_text s text i ≡ text i
unfolding scroll_text
scroll_text-behind h s text i small w t le =
    let a : s.h * s.w % u32 ≡ h * 80 = rw (w, t) (omega arith) in
    let b : (s.h + 1) * s.w % u32 ≡ (h + 1) * 80 = rw (w, t) (omega arith) in
    rw (a, b, le→ltb i (h * 80) (omega arith), le→ltb i ((h + 1) * 80) le) refl

scroll-Wrapped :
    (h : ℕ) (k k' : Console) → h < 100 → Wrapped h k k' (h + 1) → Wrapped h k (scroll k') h
unfolding scroll
scroll-Wrapped h k k' small v = elim (Bool-cases (leb (k'.screen.h + 1) k'.cursor_y)) [
  | inl e ↦
      rw (v.text_mode, e)
        record {
          text_mode = refl;
          width = v.width;
          height = v.height;
          column = v.column;
          row = ground (arith, v.height);
          behind = λ i le.
              scroll_text-behind h k'.screen k'.text i small v.width v.height le ∙ v.behind i le;
        }
  | inr e ↦
      rw (v.text_mode, e)
        record {
          text_mode = refl;
          width = v.width;
          height = v.height;
          column = v.column;
          row = ground (arith, v.height);
          behind = v.behind;
        }
]

move_cursor-Wrapped :
    (h : ℕ) (k k' : Console) (last : ℕ)
    → Wrapped h k k' last
    → Wrapped h k (if not k'.graphics then move_cursor k' else k') last
unfolding move_cursor
move_cursor-Wrapped h k k' last v = rw v.text_mode record {
  text_mode = refl;
  width = v.width;
  height = v.height;
  column = v.column;
  row = v.row;
  behind = v.behind;
}

-- A character that is not the end of a line. For those the code flushes the graphics buffer, in text
-- mode through a pointer that is NULL.
abbrev pub InLine : ℕ → Type 0
InLine c = (c ≢ 0x0A) × (c ≢ 0x0D)

module _ (letters : ℕ → Image) (ega : ℕ → Color) (h c back_color fore_color : ℕ)
    (small : h < 100) where
  put_letter-Step :
      (k : Console) → IsText h k → Step h k (put_letter letters ega c back_color fore_color k)
  unfolding put_letter
  put_letter-Step k v = rw v.text_mode record {
    text_mode = refl;
    width = v.width;
    height = v.height;
    column = omega (arith, v.column);
    row = inl v.row;
    behind = λ i le. rw v.width (ground (arith, v.row, v.column));
  }

  put_char-Step :
      (k : Console)
      → InLine c
      → IsText h k
      → Step h k (put_char letters ega c back_color fore_color k)
  unfolding put_char
  put_char-Step k (no_lf, no_cr) v = elim (Bool-cases (c == 0x08 && ltb 0 k.cursor_x)) [
    | inl a ↦ rw a (moved (k.cursor_x - 1) (omega (arith, v.column)))
    | inr a ↦ elim (Bool-cases (c == 0x09)) [
      | inl b ↦ rw (a, b) (moved ((k.cursor_x + 8) / 8 * 8 % u8) (omega (arith, v.column)))
      | inr b ↦
          let d : (c == 0x0D) ≡ false = ground arith in
          let e : (c == 0x0A) ≡ false = ground arith in
          elim (Bool-cases (leb 0x20 c && ltb c 128)) [
            | inl f ↦ rw (a, b, d, e, f) (put_letter-Step k v)
            | inr f ↦ rw (a, b, d, e, f) (moved k.cursor_x (omega (arith, v.column)))
          ]
    ]
  ]
    where
      moved : (x : ℕ) → x ≤ 80 → Step h k (record k { cursor_x = x })
      moved x le = record {
        text_mode = v.text_mode;
        width = v.width;
        height = v.height;
        column = le;
        row = inl v.row;
        behind = λ i le'. refl;
      }

  kd_cput-Wrapped :
      (k : Console)
      → InLine c
      → IsText h k
      → Wrapped h k (kd_cput letters ega c back_color fore_color k) h
  unfolding kd_cput
  kd_cput-Wrapped k inside v =
      let p = put_char-Step k inside v in
      let k' = put_char letters ega c back_color fore_color k in
      let r = scroll-Wrapped h k (wrap_line k') small (wrap_line-Wrapped h k k' small p) in
      move_cursor-Wrapped h k (scroll (wrap_line k')) h r

module _ (letters : ℕ → Image) (ega : ℕ → Color) (back_color fore_color : ℕ) where
  -- In text mode of 80 columns and a height `h` below 100, with the cursor on the screen, a string that
  -- is not empty and has no end of a line leaves the cursor in the first 10 columns and on the lines 0
  -- to `h`, and writes no cell behind the line `h`.
  pub kd_cwrite-narrow :
      (h c : ℕ) (cs : List ℕ) (k : Console)
      → h < 100
      → All InLine (c ∷ cs)
      → IsText h k
      → ((kd_cwrite letters ega (c ∷ cs) back_color fore_color k).cursor_x < 10)
        × ((kd_cwrite letters ega (c ∷ cs) back_color fore_color k).cursor_y ≤ h)
        × ((i : ℕ)
            → (h + 1) * 80 ≤ i
            → (kd_cwrite letters ega (c ∷ cs) back_color fore_color k).text i ≡ k.text i)
  unfolding kd_cwrite
  kd_cwrite-narrow h c [] k small inside v =
      let r = kd_cput-Wrapped letters ega h c back_color fore_color small k inside.0 v in
      (r.column, r.row, r.behind)
  kd_cwrite-narrow h c (d ∷ cs) k small inside v =
      let r = kd_cput-Wrapped letters ega h c back_color fore_color small k inside.0 v in
      let next =
        kd_cwrite-narrow h d cs (kd_cput letters ega c back_color fore_color k) small inside.1
          record {
            text_mode = r.text_mode;
            width = r.width;
            height = r.height;
            column = omega (arith, r.column);
            row = r.row;
          } in
      (next.0, next.1, λ i le. next.2 i le ∙ r.behind i le)
