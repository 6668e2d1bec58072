-- ===== src/Grx.antt =====
-- Graphics (src/kernel/grx/grx.c): the local copy of the picture, one 32-bit word for each pixel, the
-- bits that say which pixels have changed, and the bytes of the framebuffer.
pub mod Blit
pub mod Flush
pub mod Font
pub mod Mode
mod Tests
use cthulhu_os.Prelude.{
  ℕ, zero, suc, ◌+◌, ◌-◌, ◌*◌, ◌/◌, ◌%◌, ◌^◌, Bool, true, false, not, ◌&&◌, ltb, ◌==◌,
  if◌then◌else◌, u8, u32,
}
use cthulhu_os.Memory.Paging.{bit, set_bit}

-- `color_t`
pub record Color : Type 0 where
  pub r : ℕ
  pub g : ℕ
  pub b : ℕ

pub data ImageType : Type 0 where
  image_monochromatic image_rgb : ImageType

-- `image_t`
pub record Image : Type 0 where
  pub image_type : ImageType
  pub w : ℕ
  pub h : ℕ
  pub image_data : ℕ → ℕ

-- The variables of grx.c that these functions use.
pub record Screen : Type 0 where
  pub w : ℕ
  pub h : ℕ
  pub bpp : ℕ
  pub local_fb : ℕ → ℕ
  pub local_fb_changes : ℕ → ℕ
  pub framebuffer : ℕ → ℕ

abbrev pub store : (ℕ → ℕ) → ℕ → ℕ → ℕ → ℕ
store m i v = λ j. if j == i then v else m j

-- `BITTEST`, `BITSET` and `BITCLEAR`
unfoldable pub bittest : (ℕ → ℕ) → ℕ → Bool
unfolding bit
bittest a b = bit (a (b / 8)) (b % 8)

unfoldable pub bitset : (ℕ → ℕ) → ℕ → ℕ → ℕ
unfolding set_bit
bitset a b = store a (b / 8) (set_bit (a (b / 8)) (b % 8) true)

unfoldable pub bitclear : (ℕ → ℕ) → ℕ → ℕ → ℕ
unfolding set_bit
bitclear a b = store a (b / 8) (set_bit (a (b / 8)) (b % 8) false)

-- The word of a colour, whose parts are bytes.
unfoldable pub color_word : Color → ℕ
color_word c = c.b * 2 ^ 16 + c.g * 2 ^ 8 + c.r

unfoldable pub put_pixel : Screen → ℕ → ℕ → Screen
unfolding bitset
put_pixel s pixelpos color = record s {
  local_fb = store s.local_fb pixelpos color;
  local_fb_changes = bitset s.local_fb_changes pixelpos;
}

-- The colour of the pixel of an image that is `i` pixels right and `j` below its corner.
unfoldable pub recolored : Image → ℕ → ℕ → Color → Color
recolored image i j recolor = go image.image_type
  where
    go : ImageType → Color
    go image_rgb = record {
      r = image.image_data ((j * image.w + i) * 3 % u32);
      g = image.image_data ((j * image.w + i) * 3 % u32 + 1);
      b = image.image_data ((j * image.w + i) * 3 % u32 + 2);
    }
    go image_monochromatic = recolor

unfoldable pub is_drawn : Image → ℕ → ℕ → Bool
unfolding bittest
is_drawn image i j = go image.image_type
  where
    go : ImageType → Bool
    go image_rgb = true
    go image_monochromatic = bittest image.image_data ((j * image.w + i) % u32)

-- A round of the inner loop of `blit_colored`, and the loop with `n` pixels to go.
unfoldable pub blit_pixel : Image → ℕ → ℕ → Color → ℕ → ℕ → Screen → Screen
unfolding put_pixel
blit_pixel image i j recolor px py s =
    if ltb px s.w && is_drawn image i j
    then put_pixel s ((py * s.w + px) % u32) (color_word (recolored image i j recolor))
    else s

unfoldable pub blit_row : Image → ℕ → ℕ → Color → ℕ → ℕ → ℕ → Screen → Screen
unfolding blit_pixel
blit_row image i j recolor px py zero s = s
blit_row image i j recolor px py (suc n) s =
    blit_row image (suc i) j recolor (px + 1) py n (blit_pixel image i j recolor px py s)

unfoldable pub blit_rows : Image → ℕ → Color → ℕ → ℕ → ℕ → ℕ → Screen → Screen
unfolding blit_row
blit_rows image j recolor x cols py zero s = s
blit_rows image j recolor x cols py (suc n) s =
    blit_rows image (suc j) recolor x cols (py + 1) n
      (if ltb py s.h then blit_row image 0 j recolor x py cols s else s)

-- The rounds of `for (p = from; p < from + size; p++)` on `uint32_t`.
unfoldable pub rounds : ℕ → ℕ → ℕ
rounds from size = if ltb from ((from + size) % u32) then size else 0

unfoldable pub blit_colored : Image → ℕ → ℕ → Color → Screen → Screen
unfolding blit_rows rounds
blit_colored image x y recolor s =
    blit_rows image 0 recolor x (rounds x image.w) y (rounds y image.h) s

-- The loops of `clear_screen`, with `n` pixels of the row and `n` rows to go.
unfoldable pub clear_row : ℕ → ℕ → ℕ → ℕ → Screen → Screen
unfolding put_pixel
clear_row color py px zero s = s
clear_row color py px (suc n) s =
    clear_row color py (px + 1) n (put_pixel s ((py * s.w + px) % u32) color)

unfoldable pub clear_rows : ℕ → ℕ → ℕ → Screen → Screen
unfolding clear_row
clear_rows color py zero s = s
clear_rows color py (suc n) s = clear_rows color (py + 1) n (clear_row color py 0 s.w s)

unfoldable pub clear_screen : Color → Screen → Screen
unfolding clear_rows color_word
clear_screen c s = clear_rows (color_word c) 0 s.h s

-- Bytes `i` to `i + 3` of `a`, from `b`.
unfoldable pub copy4 : (ℕ → ℕ) → ℕ → (ℕ → ℕ) → ℕ → ℕ → ℕ
copy4 a i b j =
    store (store (store (store a i (b j)) (i + 1) (b (j + 1))) (i + 2) (b (j + 2))) (i + 3)
      (b (j + 3))

-- A changed pixel in `flush_buffer`: with 32 bits the copy goes from the framebuffer to the bits.
unfoldable pub flush_pixel : ℕ → ℕ → Screen → Screen
unfolding bitclear copy4
flush_pixel i ppx s =
    let cleared = bitclear s.local_fb_changes i in
    let color = s.local_fb i in
    if s.bpp == 32
    then record s { local_fb_changes = copy4 cleared i s.framebuffer ppx }
    else if s.bpp == 24
    then record s {
      local_fb_changes = cleared;
      framebuffer =
          store
            (store (store s.framebuffer ppx (color / 2 ^ 16 % u8)) (ppx + 1) (color / 2 ^ 8 % u8))
            (ppx + 2) (color % u8);
    }
    else record s { local_fb_changes = cleared }

unfoldable pub flush_loop : ℕ → ℕ → ℕ → Screen → Screen
unfolding flush_pixel bittest
flush_loop i ppx zero s = s
flush_loop i ppx (suc n) s =
    flush_loop (suc i) (ppx + (if s.bpp == 32 then 4 else if s.bpp == 24 then 3 else 0)) n
      (if bittest s.local_fb_changes i then flush_pixel i ppx s else s)

unfoldable pub flush_buffer : Screen → Screen
unfolding flush_loop
flush_buffer s = flush_loop 0 0 (s.w * s.h % u32) s

-- `scroll_up`; the sums and products are `uint32_t`.
unfoldable pub scrolled : Screen → ℕ → Screen
scrolled s bypx =
    let first = (s.h + (u32 - bypx)) % u32 * s.w % u32 in
    record s {
      local_fb = λ i.
          if ltb i (first * 4 % u32 / 4)
          then s.local_fb (i + bypx * s.w % u32)
          else if ltb i first
          then s.local_fb i
          else if ltb i (first + bypx * s.w * 4 % u32 / 4)
          then 0
          else s.local_fb i;
      local_fb_changes =
          λ i. if ltb i ((s.w * s.h % u32 + 7) / 8) then 0xFF else s.local_fb_changes i;
    }

unfoldable pub scroll_up : ℕ → Screen → Screen
unfolding scrolled flush_buffer
scroll_up bypx s = flush_buffer (scrolled s bypx)
