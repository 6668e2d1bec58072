-- ===== src/Utils/Console.antt =====
-- Text output (src/kernel/utils/textinput.c), in text mode and on the graphics screen. Characters are
-- their codes; a `char` is signed, so codes from 128 on are not at least ' '. `letters` is the font
-- and `ega` the table of colours. In text mode `flush_buffer` reads and clears the bits of
-- `local_fb_changes` at NULL: what it does to the memory there is not modelled.
pub mod Cursor
use cthulhu_os.Prelude.{
  ℕ, zero, suc, ◌+◌, ◌-◌, ◌*◌, ◌/◌, ◌%◌, ◌^◌, Bool, true, false, not, ◌&&◌, ◌||◌, List, [], ◌∷◌,
  ◌++◌, ltb, leb, ◌==◌, if◌then◌else◌, u8, u16, u32,
}
use cthulhu_os.Grx.{Color, Image, Screen, blit_colored, scroll_up, clear_screen, flush_buffer}

-- The state of the output; `ports` are the values that went to ports, in order.
pub record Console : Type 0 where
  pub graphics : Bool
  pub screen : Screen
  pub text : ℕ → ℕ
  pub cursor_x : ℕ
  pub cursor_y : ℕ
  pub ports : List (ℕ × ℕ)

-- `__font_w` and `__font_h`
abbrev pub font_w : ℕ
font_w = 8

abbrev pub font_h : ℕ
font_h = 14

-- A cell of the text screen: a character with its colours.
unfoldable pub cell : ℕ → ℕ → ℕ → ℕ
cell c back_color fore_color = c + (back_color * 16 % u8 + fore_color % 16) * 256

-- The text screen moved up by a line.
unfoldable pub scroll_text : Screen → (ℕ → ℕ) → ℕ → ℕ
unfolding cell
scroll_text s text i =
    if ltb i (s.h * s.w % u32)
    then text ((i + s.w) % u32)
    else if ltb i ((s.h + 1) * s.w % u32)
    then cell 0x20 0 15
    else text i

unfoldable pub scroll : Console → Console
unfolding scroll_text scroll_up
scroll k =
    if not k.graphics
    then (if leb (k.screen.h + 1) k.cursor_y
        then record k { text = scroll_text k.screen k.text; cursor_y = k.screen.h % u8 }
        else k)
    else (if leb (k.screen.h / font_h + 1) k.cursor_y
        then record k { screen = scroll_up font_h k.screen; cursor_y = k.screen.h / font_h % u8 }
        else k)

unfoldable pub move_cursor : Console → Console
move_cursor k =
    let location = (k.cursor_y * k.screen.w + k.cursor_x) % u16 in
    record k {
      ports =
          k.ports
          ++ ((0x3D4, 14) ∷ (0x3D5, location / 2 ^ 8) ∷ (0x3D4, 15) ∷ (0x3D5, location % u8) ∷ []);
    }

-- What `kd_cput` does at the cursor.
unfoldable pub put_letter : (ℕ → Image) → (ℕ → Color) → ℕ → ℕ → ℕ → Console → Console
unfolding cell blit_colored
put_letter letters ega c back_color fore_color k =
    let x' = (k.cursor_x + 1) % u8 in
    if not k.graphics
    then record k {
      text = λ i.
          if i == (k.cursor_y * k.screen.w + k.cursor_x) % u32
          then cell c back_color fore_color
          else k.text i;
      cursor_x = x';
    }
    else record k {
      screen =
          blit_colored (letters c) (k.cursor_x * font_w) (k.cursor_y * font_h) (ega fore_color)
            k.screen;
      cursor_x = x';
    }

unfoldable pub put_char : (ℕ → Image) → (ℕ → Color) → ℕ → ℕ → ℕ → Console → Console
unfolding put_letter flush_buffer
put_char letters ega c back_color fore_color k =
    let flushed = flush_buffer k.screen in
    if c == 0x08 && ltb 0 k.cursor_x
    then record k { cursor_x = k.cursor_x - 1 }
    else if c == 0x09
    then record k { cursor_x = (k.cursor_x + 8) / 8 * 8 % u8 }
    else if c == 0x0D
    then record k { screen = flushed; cursor_x = 0 }
    else if c == 0x0A
    then record k { screen = flushed; cursor_x = 0; cursor_y = (k.cursor_y + 1) % u8 }
    else if leb 0x20 c && ltb c 128
    then put_letter letters ega c back_color fore_color k
    else k

-- The end of a line: at column 80 in text mode, and in both modes at the columns of the font.
unfoldable pub wrap_line : Console → Console
wrap_line k =
    if leb 80 k.cursor_x && not k.graphics || leb (k.screen.w / font_w) k.cursor_x
    then record k { cursor_x = 0; cursor_y = (k.cursor_y + 1) % u8 }
    else k

unfoldable pub kd_cput : (ℕ → Image) → (ℕ → Color) → ℕ → ℕ → ℕ → Console → Console
unfolding put_char wrap_line scroll move_cursor
kd_cput letters ega c back_color fore_color k =
    let scrolled = scroll (wrap_line (put_char letters ega c back_color fore_color k)) in
    if not scrolled.graphics then move_cursor scrolled else scrolled

-- `kd_cwrite` of the characters before the end of the string.
unfoldable pub kd_cwrite : (ℕ → Image) → (ℕ → Color) → List ℕ → ℕ → ℕ → Console → Console
unfolding kd_cput
kd_cwrite letters ega [] back_color fore_color k = k
kd_cwrite letters ega (c ∷ cs) back_color fore_color k =
    kd_cwrite letters ega cs back_color fore_color (kd_cput letters ega c back_color fore_color k)

unfoldable pub kd_cclear : (ℕ → Color) → ℕ → Console → Console
unfolding cell clear_screen flush_buffer move_cursor
kd_cclear ega back_color k =
    if not k.graphics
    then move_cursor (record k {
      text =
          λ i. if ltb i (k.screen.w * k.screen.h % u32) then cell 0x20 back_color 15 else k.text i;
      cursor_x = 0;
      cursor_y = 0;
    })
    else record k { screen = flush_buffer (clear_screen (ega back_color) k.screen) }

unfoldable pub kd_setxy : ℕ → ℕ → Console → Console
unfolding move_cursor
kd_setxy x y k = move_cursor (record k { cursor_x = x; cursor_y = y })

-- `__write_hex_c8` and `__write_hex_c`
unfoldable pub hex_char : ℕ → ℕ
hex_char num = if ltb 9 num && ltb num 16 then 0x37 + num else (0x30 + num) % u8

unfoldable pub write_hex_c : (ℕ → Image) → (ℕ → Color) → ℕ → ℕ → ℕ → Console → Console
unfolding kd_cput hex_char
write_hex_c letters ega num back_color fore_color k =
    kd_cput letters ega (hex_char (num % 16)) back_color fore_color
      (kd_cput letters ega (hex_char (num / 16)) back_color fore_color k)

-- The bytes of `kd_cwrite_hex` and `kd_cwrite_hex64`, the first one first.
unfoldable pub write_bytes : (ℕ → Image) → (ℕ → Color) → List ℕ → ℕ → ℕ → Console → Console
unfolding write_hex_c
write_bytes letters ega [] back_color fore_color k = k
write_bytes letters ega (b ∷ bs) back_color fore_color k =
    write_bytes letters ega bs back_color fore_color
      (write_hex_c letters ega (b % u8) back_color fore_color k)

unfoldable pub kd_cwrite_hex : (ℕ → Image) → (ℕ → Color) → ℕ → ℕ → ℕ → Console → Console
unfolding kd_cwrite write_bytes
kd_cwrite_hex letters ega number back_color fore_color k =
    write_bytes letters ega (number / 2 ^ 24 ∷ number / 2 ^ 16 ∷ number / 2 ^ 8 ∷ number % 256 ∷ [])
      back_color fore_color (kd_cwrite letters ega (0x30 ∷ 0x78 ∷ []) back_color fore_color k)

unfoldable pub kd_cwrite_hex64 : (ℕ → Image) → (ℕ → Color) → ℕ → ℕ → ℕ → Console → Console
unfolding kd_cwrite write_bytes
kd_cwrite_hex64 letters ega number back_color fore_color k =
    write_bytes letters ega
      (number / 2 ^ 56
        ∷ number / 2 ^ 48
        ∷ number / 2 ^ 40
        ∷ number / 2 ^ 32
        ∷ number / 2 ^ 24
        ∷ number / 2 ^ 16
        ∷ number / 2 ^ 8
        ∷ number % 256
        ∷ [])
      back_color fore_color (kd_cwrite letters ega (0x30 ∷ 0x78 ∷ []) back_color fore_color k)

-- `kd_write_hex64` writes the lower 32 bits only.
unfoldable pub kd_write_hex64 : (ℕ → Image) → (ℕ → Color) → ℕ → Console → Console
unfolding kd_cwrite_hex
kd_write_hex64 letters ega number k = kd_cwrite_hex letters ega (number % u32) 0 7 k
