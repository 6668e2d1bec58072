-- ===== src/Grx/Flush.antt =====
-- What `flush_buffer` and `scroll_up` do to the picture (src/kernel/grx/grx.c).
use cthulhu_os.Prelude.{
  ℕ, zero, suc, ◌+◌, ◌-◌, ◌*◌, ◌/◌, ◌%◌, ◌≡◌, inl, inr, Bool-cases, ltb, ◌==◌, if◌then◌else◌, u32,
}
use cthulhu_os.Grx.{Screen, bittest, flush_pixel, flush_loop, flush_buffer}
use cthulhu_os.Grx.Blit.{Sized}

flush_pixel-Sized : (i ppx w h : ℕ) (s : Screen) → Sized s w h → Sized (flush_pixel i ppx s) w h
unfolding flush_pixel
flush_pixel-Sized i ppx w h s v = elim (Bool-cases (s.bpp == 32)) [
  | inl a ↦ rw a record { width = v.width; height = v.height }
  | inr a ↦ elim (Bool-cases (s.bpp == 24)) [
    | inl b ↦ rw (a, b) record { width = v.width; height = v.height }
    | inr b ↦ rw (a, b) record { width = v.width; height = v.height }
  ]
]

flush_loop-Sized : (i ppx n w h : ℕ) (s : Screen) → Sized s w h → Sized (flush_loop i ppx n s) w h
unfolding flush_loop
flush_loop-Sized i ppx zero w h s v = v
flush_loop-Sized i ppx (suc n) w h s v = elim (Bool-cases (bittest s.local_fb_changes i)) [
  | inl e ↦
      rw (e, flush_loop)
        (flush_loop-Sized (suc i) _ n w h (flush_pixel i ppx s) (flush_pixel-Sized i ppx w h s v))
  | inr e ↦ rw (e, flush_loop) (flush_loop-Sized (suc i) _ n w h s v)
]

pub flush_buffer-Sized : (w h : ℕ) (s : Screen) → Sized s w h → Sized (flush_buffer s) w h
unfolding flush_buffer
flush_buffer-Sized w h s v = flush_loop-Sized 0 0 (s.w * s.h % u32) w h s v

-- The rows of the picture after it has moved up.
abbrev pub moved_up : Screen → ℕ → ℕ → ℕ → ℕ
moved_up s bypx px py = if ltb (py + bypx) s.h then s.local_fb ((py + bypx) * s.w + px) else 0

-- The numbers of words that `scroll_up` reckons with.
record Parts (h w bypx : ℕ) : Type 0 where
  pub first : (h + (u32 - bypx)) % u32 * w % u32 ≡ (h - bypx) * w
  pub copied : (h - bypx) * w * 4 % u32 / 4 ≡ (h - bypx) * w
  pub offset : bypx * w % u32 ≡ bypx * w
  pub cleared : bypx * w * 4 % u32 / 4 ≡ bypx * w
  pub total : (h - bypx) * w + bypx * w ≡ h * w
