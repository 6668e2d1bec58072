-- ===== src/Grx/Blit.antt =====
-- What `blit_colored` draws (src/kernel/grx/grx.c).
use cthulhu_os.Prelude.{ℕ, ◌+◌, ◌*◌, ◌≤◌, ◌<◌, ◌≡◌, true, arith}
use cthulhu_os.Grx.{Color, Image, Screen, color_word, recolored, is_drawn}

pub mul-below : (a b w : ℕ) → a < b → a * w + w ≤ b * w
mul-below a b w h = grind arith

-- The pixel at column `px` of row `py`.
abbrev pub pixel : Screen → ℕ → ℕ → ℕ
pixel s px py = s.local_fb (py * s.w + px)

-- A screen of this size.
pub record Sized (s : Screen) (w h : ℕ) : Type 0 where
  pub width : s.w ≡ w
  pub height : s.h ≡ h

-- The image at `(x, y)` is drawn at a pixel.
abbrev pub Covers : Image → ℕ → ℕ → ℕ → ℕ → ℕ → ℕ → Type 0
Covers image x y px py k l =
    (px ≡ x + k) × (py ≡ y + l) × (k < image.w) × (l < image.h) × (is_drawn image k l ≡ true)

-- The word of a pixel after the drawing, from the one before.
pub data Drawn (image : Image) (c : Color) (x y px py before : ℕ) : ℕ → Type 0 where
  on :
      (k l : ℕ)
      → Covers image x y px py k l
      → Drawn image c x y px py before (color_word (recolored image k l c))
  off : ((k l : ℕ) → ¬ Covers image x y px py k l) → Drawn image c x y px py before before
