-- ===== src/Utils/Tests.antt =====
-- Numbers as text, and text on the screen.
use cthulhu_os.Prelude.{◌+◌, ◌*◌, ℕ, ◌≡◌, ◌≤◌, ◌<◌, refl, false, [], ◌∷◌, arith}
use cthulhu_os.Grx.{Image, image_monochromatic}
use cthulhu_os.Utils.Console.{Console, kd_cput, kd_cwrite}
use cthulhu_os.Utils.Console.Cursor.{kd_cwrite-narrow}
use cthulhu_os.Utils.Hex.{bytetohex, hextochar, hexadecimal, hextochar-hexadecimal}

hextochar_run : hextochar 0xBEEF ≡ hexadecimal 0xBEEF
hextochar_run = hextochar-hexadecimal 0xBEEF (omega arith)

-- From 2 ^ 16 on the characters leave the digits: 0x10000 comes out as "0x0001@000", not "0x00010000".
wide_number :
    hextochar 0x10000 ≡ 0x30 ∷ 0x78 ∷ 0x30 ∷ 0x30 ∷ 0x30 ∷ 0x31 ∷ 0x40 ∷ 0x30 ∷ 0x30 ∷ 0x30 ∷ []
unfolding hextochar bytetohex
wide_number = refl

abbrev blank_image : Image
blank_image = record { image_type = image_monochromatic; w = 8; h = 14; image_data = λ i. 0 }

abbrev empty_console : Console
empty_console = record {
  graphics = false;
  screen = record {
    w = 80;
    h = 24;
    bpp = 16;
    local_fb = λ i. 0;
    local_fb_changes = λ i. 0;
    framebuffer = λ i. 0;
  };
  text = λ i. 0;
  cursor_x = 9;
  cursor_y = 24;
  ports = [];
}

-- The tenth character of a line starts a new line, at the bottom of the screen with the text moved up.
tenth_character :
    (let k =
        kd_cput (λ c. blank_image) (λ i. record { r = 0; g = 0; b = 0 }) 0x41 0 7 empty_console in
      (k.cursor_x ≡ 0) × (k.cursor_y ≡ 24) × (k.text 1849 ≡ 0x741))
unfolding kd_cput
tenth_character = (refl, refl, refl)

kd_cwrite-narrow_example :
    (let k =
        kd_cwrite
          (λ c. blank_image)
          (λ i. record { r = 0; g = 0; b = 0 })
          (0x41 ∷ 0x42 ∷ 0x09 ∷ [])
          0
          7
          empty_console in
      (k.cursor_x < 10)
      × (k.cursor_y ≤ 24)
      × ((i : ℕ) → (24 + 1) * 80 ≤ i → k.text i ≡ empty_console.text i))
kd_cwrite-narrow_example =
    kd_cwrite-narrow (λ c. blank_image) (λ i. record { r = 0; g = 0; b = 0 }) 0 7 24 0x41
      (0x42 ∷ 0x09 ∷ []) empty_console (omega arith)
      (
        ((λ e. omega arith), λ e. omega arith),
        (((λ e. omega arith), λ e. omega arith), (((λ e. omega arith), λ e. omega arith), tt)),
      )
      record {
        text_mode = refl;
        width = refl;
        height = refl;
        column = omega arith;
        row = omega arith;
      }
