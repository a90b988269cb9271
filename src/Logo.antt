-- ===== src/Logo.antt =====
-- kernel/src/main.rs: the logo that `kernel_main` draws.
pub mod Pixels
use rix_os.Base.{
  ℕ, zero, suc, ◌+◌, ◌*◌, ◌^◌, List, true, ◌==◌, ltb, if◌then◌else◌, bit_or, u32, u64, Exec, done,
  ◌>>=◌, index,
}
use rix_os.Io.{Ports}
use rix_os.Bga.{bpp_32, bga_set_video_mode, bga_set_bank}

-- A pixel of the decoded image, `[u8; 4]`.
pub record Pixel : Type 0 where
  pub red : ℕ
  pub green : ℕ
  pub blue : ℕ
  pub alpha : ℕ

-- What `png_decoder::decode` returns.
pub record Image : Type 0 where
  pub width : ℕ
  pub height : ℕ
  pub pixels : List Pixel

-- The frame buffer by words.
abbrev pub FrameBuffer : Type 0
FrameBuffer = ℕ → ℕ

-- `color`, or black where the pixel is transparent
unfoldable pub color : Pixel → ℕ
color p = if ltb 0 p.alpha then bit_or (bit_or (p.red * 2 ^ 16) (p.green * 2 ^ 8)) p.blue else 0

-- `*framebuffer.add(offset) = v`
abbrev pub write : (offset v : ℕ) → FrameBuffer → FrameBuffer
write offset v fb k = if k == offset then v else fb k

-- The loop over `x`, with `left` rounds to go. The source index is computed in `u32`, the
-- destination in `usize`.
unfoldable pub draw_columns : (left x y : ℕ) → Image → FrameBuffer → Exec FrameBuffer
draw_columns zero x y img fb = done fb
draw_columns (suc left) x y img fb = do
  pixel ← index img.pixels (u32 (y * img.width + x))
  draw_columns left (suc x) y img (write (u64 (y * img.width + x)) (color pixel) fb)

-- The loop over `y`.
unfoldable pub draw_lines : (left y : ℕ) → Image → FrameBuffer → Exec FrameBuffer
draw_lines zero y img fb = done fb
draw_lines (suc left) y img fb = do
  fb ← draw_columns img.width 0 y img fb
  draw_lines left (suc y) img fb

module _ {H : Type 0} (io : Ports H) where
  -- The part of `kernel_main` from the mode to the end of the loops.
  unfoldable pub show_logo : Image → H → FrameBuffer → Exec (H × FrameBuffer)
  show_logo img h fb = do
    drawn ← draw_lines img.height 0 img fb
    done (bga_set_bank io 0 (bga_set_video_mode io img.width img.height bpp_32 true true h), drawn)
