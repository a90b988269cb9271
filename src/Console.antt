-- ===== src/Console.antt =====
-- kernel/src/console.rs: text drawn into the frame buffer.
pub mod Pixels
pub mod Drawing
pub mod Panics
use rix_os.Base.{
  ℕ, zero, suc, ◌+◌, ◌*◌, ◌/◌, ◌%◌, ◌^◌, ◌<◌, ◌≡◌, Bool, true, false, Option, none, some, List, [],
  ◌∷◌, map, ltb, leb, if◌then◌else◌, length, set, replicate, u8, u64, Exec, done, panic, ◌>>=◌,
  unwrap, index, bit_and,
}

-- A glyph of the crate noto_sans_mono_bitmap: its rows of intensities, and its width.
pub record Raster : Type 0 where
  pub rows : List (List ℕ)
  pub width : ℕ

-- The crate's enums `FontWeight` and `RasterHeight` are numbers here, the latter its pixels.
pub record NotoFontDisplay : Type 0 where
  pub width : ℕ
  pub height : ℕ
  pub stride : ℕ
  pub draw_buffer : List ℕ
  pub font_weight : ℕ
  pub raster_height : ℕ
  pub cursor_x : ℕ
  pub cursor_y : ℕ

unfoldable pub new :
    (width height stride : ℕ) (draw_buffer : List ℕ) (font_weight raster_height : ℕ)
    → NotoFontDisplay
new width height stride draw_buffer font_weight raster_height = record {
  width = width;
  height = height;
  stride = stride;
  draw_buffer = draw_buffer;
  font_weight = font_weight;
  raster_height = raster_height;
  cursor_x = 0;
  cursor_y = 0;
}

-- `clear`
unfoldable pub clear : NotoFontDisplay → NotoFontDisplay
clear c = record c { draw_buffer = map (λ pixel. 0) c.draw_buffer }

-- `u8::saturating_add`
unfoldable pub saturating_add : ℕ → ℕ → ℕ
saturating_add a b = if ltb (a + b) 256 then a + b else 255

-- The pixel under a glyph's intensity. `>>` and `<<` are division and multiplication.
unfoldable pub blend : (curr_pixel_rgb intensity : ℕ) → ℕ
blend curr_pixel_rgb intensity =
    let r = u8 (bit_and curr_pixel_rgb 0xff0000 / 2 ^ 16) in
    let g = u8 (bit_and curr_pixel_rgb 0xff00 / 2 ^ 8) in
    let b = u8 (bit_and curr_pixel_rgb 0xff) in
    saturating_add r intensity * 2 ^ 16
    + saturating_add g intensity * 2 ^ 8
    + saturating_add b intensity

-- The body of the innermost loop.
unfoldable pub draw_pixel : (index intensity : ℕ) → NotoFontDisplay → Exec NotoFontDisplay
draw_pixel i intensity c = do
  curr_pixel_rgb ← index c.draw_buffer i
  done (record c { draw_buffer = set c.draw_buffer i (blend curr_pixel_rgb intensity) })

-- `index`, for the glyph that starts `char_x` pixels after the cursor
unfoldable pub pixel_index : (char_x col_i row_i : ℕ) → NotoFontDisplay → ℕ
pixel_index char_x col_i row_i c =
    u64 (char_x + col_i + row_i * c.stride + c.cursor_x + c.cursor_y * c.stride)

-- The loop over `row`, from column `col_i` on.
unfoldable pub draw_row :
    (row : List ℕ) (char_x col_i row_i : ℕ) → NotoFontDisplay → Exec NotoFontDisplay
draw_row [] char_x col_i row_i c = done c
draw_row (intensity ∷ row) char_x col_i row_i c = do
  c ← draw_pixel (pixel_index char_x col_i row_i c) intensity c
  draw_row row char_x (suc col_i) row_i c

-- The loop over `char_raster.raster()`, from row `row_i` on.
unfoldable pub draw_rows :
    (rows : List (List ℕ)) (char_x row_i : ℕ) → NotoFontDisplay → Exec NotoFontDisplay
draw_rows [] char_x row_i c = done c
draw_rows (row ∷ rows) char_x row_i c = do
  c ← draw_row row char_x 0 row_i c
  draw_rows rows char_x (suc row_i) c

-- The bytes of a character in UTF-8.
unfoldable pub len_utf8 : ℕ → ℕ
len_utf8 ch = if ltb ch 0x80 then 1 else if ltb ch 0x800 then 2 else if ltb ch 0x10000 then 3 else 4

-- `msg.len()`
unfoldable pub str_len : List ℕ → ℕ
str_len [] = 0
str_len (ch ∷ msg) = len_utf8 ch + str_len msg

-- The cursor after `draw_string`.
unfoldable pub move_cursor : (len : ℕ) → NotoFontDisplay → NotoFontDisplay
move_cursor len c =
    if leb c.width c.cursor_x
    then record c { cursor_y = 0; cursor_x = u64 (c.cursor_x + c.raster_height) }
    else record c { cursor_y = u64 (c.cursor_y + len) }

abbrev pub or_space : (glyph space : Option Raster) → Exec Raster
or_space (some raster) space = done raster
or_space none space = unwrap space

module _ (get_raster : (char font_weight raster_height : ℕ) → Option Raster) where
  -- `char_raster`: the glyph of a space for a character that the font lacks
  unfoldable pub char_raster : (char : ℕ) → NotoFontDisplay → Exec Raster
  char_raster ch c =
      or_space (get_raster ch c.font_weight c.raster_height)
        (get_raster 0x20 c.font_weight c.raster_height)

  -- The loop over `msg.chars()`, from the character `char_i` on.
  unfoldable pub draw_chars : (msg : List ℕ) (char_i : ℕ) → NotoFontDisplay → Exec NotoFontDisplay
  draw_chars [] char_i c = done c
  draw_chars (ch ∷ msg) char_i c = do
    raster ← char_raster ch c
    c ← draw_rows raster.rows (char_i * raster.width) 0 c
    draw_chars msg (suc char_i) c

  unfoldable pub draw_string : (msg : List ℕ) → NotoFontDisplay → Exec NotoFontDisplay
  draw_string msg c = do c ← draw_chars msg 0 c; done (move_cursor (str_len msg) c)

  -- `write_str`; `write_fmt` calls it with each piece of the formatted text.
  unfoldable pub write_fmt : (pieces : List (List ℕ)) → NotoFontDisplay → Exec NotoFontDisplay
  write_fmt [] c = done c
  write_fmt (s ∷ pieces) c = do c ← draw_string s c; write_fmt pieces c

  -- `_print`, with the static `CONSOLE` as state
  unfoldable pub print :
      (pieces : List (List ℕ)) → Option NotoFontDisplay → Exec (Option NotoFontDisplay)
  print pieces console = do c ← unwrap console; c ← write_fmt pieces c; done (some c)

  -- "Kernel Message"
  abbrev pub kernel_message : List ℕ
  kernel_message =
      0x4b ∷ 0x65 ∷ 0x72 ∷ 0x6e ∷ 0x65 ∷ 0x6c ∷ 0x20 ∷ 0x4d ∷ 0x65 ∷ 0x73 ∷ 0x73 ∷ 0x61 ∷ 0x67
      ∷ 0x65 ∷ []

  -- `init`, for a frame buffer of these sizes; 24 is `RasterHeight::Size24`, 0 `FontWeight::Light`.
  unfoldable pub init : (width height stride : ℕ) → Exec (Option NotoFontDisplay)
  init width height stride = do
    c ←
        draw_string kernel_message
          (new width height stride (replicate (u64 (stride * height)) 0xff408deb) 0 24)
    done (some c)
