-- ===== src/Grx/Tests.antt =====
-- A picture of four by three pixels.
use cthulhu_os.Prelude.{◌+◌, ◌*◌, ◌%◌, ◌≡◌, refl, arith}
use cthulhu_os.Grx.{
  Color, Image, image_monochromatic, Screen, blit_colored, is_drawn, color_word, recolored,
}
use cthulhu_os.Grx.Font.{get_letter, initialize_font, is_drawn-initialize_font}
use cthulhu_os.Memory.Paging.{bit}

abbrev small_screen : Screen
small_screen = record {
  w = 4;
  h = 3;
  bpp = 24;
  local_fb = λ i. i + 100;
  local_fb_changes = λ i. 0;
  framebuffer = λ i. 0;
}

-- The bits of the rows "101" and "010".
abbrev dots : Image
dots = record { image_type = image_monochromatic; w = 3; h = 2; image_data = λ i. 0x15 }

abbrev red : Color
red = record { r = 255; g = 0; b = 0 }

drawn_dot : (blit_colored dots 2 1 red small_screen).local_fb (1 * 4 + 2) ≡ 255
unfolding blit_colored is_drawn color_word recolored
drawn_dot = refl

is_drawn-initialize_font_run :
    is_drawn (get_letter (initialize_font (λ i. i % 256)) 65) 3 5 ≡ bit ((65 * 14 + 5) % 256) 4
is_drawn-initialize_font_run =
    is_drawn-initialize_font (λ i. i % 256) 65 3 5 (omega arith) (omega arith) (omega arith)
      (omega arith)
