-- ===== src/Grx/Mode.antt =====
-- The choice of the mode from the boot information (src/kernel/grx/grx.c: `set_graphics_mode`).
use cthulhu_os.Prelude.{ℕ, ◌+◌, ◌*◌, ◌/◌, ◌%◌, not, ◌==◌, if◌then◌else◌, u32}
use cthulhu_os.Memory.Paging.{bit}
use cthulhu_os.Grx.{Color, Image, image_monochromatic, Screen}

-- The fields of `struct multiboot_info` that are read; the masks and positions of the colours are
-- stored and not used.
pub record BootInfo : Type 0 where
  pub flags : ℕ
  pub framebuffer_addr : ℕ
  pub framebuffer_width : ℕ
  pub framebuffer_height : ℕ
  pub framebuffer_pitch : ℕ
  pub framebuffer_bpp : ℕ
  pub framebuffer_type : ℕ

-- How the set-up ends: in text mode with its size, where the text memory is the framebuffer if that is
-- what the boot loader has set up; with the processor stopped; or with the graphics screen, the gray of
-- `blit` and the image of a clear screen.
pub data Mode : Type 0 where
  text : ℕ → ℕ → Mode
  ega_text : ℕ → ℕ → ℕ → Mode
  halted : Mode
  graphics : Screen → Color → Image → Mode

-- The image that `clear_screen_blit` points to, whose bits are all set; the bytes behind them are those
-- of the memory before, `old`.
unfoldable pub clear_image : ℕ → ℕ → ℕ → (ℕ → ℕ) → Image
clear_image w h pitch old = record {
  image_type = image_monochromatic;
  w = w;
  h = h;
  image_data = λ i. if i / (pitch * h % u32 / 8 + 1) == 0 then 0xFF else old i;
}

-- `(1<12)` is 1, so the second test is on bit 0. `virtual` is `physical_to_virtual`, `frame` the bytes of
-- the framebuffer; the `malloc` of the buffers is not looked at and taken to succeed.
unfoldable pub set_graphics_mode : (ℕ → ℕ) → (ℕ → ℕ) → (ℕ → ℕ) → BootInfo → Mode
unfolding bit clear_image
set_graphics_mode virtual frame old mb =
    let w = mb.framebuffer_width in
    let h = mb.framebuffer_height in
    let screen : Screen = record {
      w = w;
      h = h;
      bpp = mb.framebuffer_bpp;
      local_fb = λ i. 0;
      local_fb_changes = λ i. 0;
      framebuffer = frame;
    } in
    if not (bit mb.flags 11)
    then text 80 24
    else if not (bit mb.flags 0)
    then text 80 24
    else if mb.framebuffer_type == 2
    then ega_text w h (virtual mb.framebuffer_addr)
    else if mb.framebuffer_type == 0
    then halted
    else graphics screen (record { r = 127; g = 127; b = 127 })
        (clear_image w h mb.framebuffer_pitch old)
