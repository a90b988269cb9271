-- ===== src/Console/Drawing.antt =====
-- `draw_string` of kernel/src/console.rs, for text that fits on the screen.
use rix_os.Base.{
  ℕ, suc, ◌+◌, ◌*◌, ◌^◌, ◌<◌, ◌≤◌, ◌≡◌, false, Option, some, List, [], ◌∷◌, refl, leb, length, set,
  u64, Exec, done, ◌>>=◌, arith, get_elem?, Option-cases, inl, inr, length-set, get_elem?_of_lt,
  get_elem?-set_ne, All, ◌∙◌, ap,
}
use native.Mathlib.Nat.{mul-le-mul_right, mul-le-mul_left}
use rix_os.Console.{
  Raster, NotoFontDisplay, blend, draw_pixel, pixel_index, draw_row, draw_rows, draw_chars,
  char_raster, draw_string, move_cursor, str_len,
}

-- Drawing from `c` does not panic, and changes no more than pixels below `hi`.
abbrev pub Draws : (hi : ℕ) (c : NotoFontDisplay) (m : Exec NotoFontDisplay) → Type 0
Draws hi c m =
    (buffer : List ℕ) × (m ≡ done (record c { draw_buffer = buffer }))
    × (length buffer ≡ length c.draw_buffer)
    × ((j : ℕ) → hi ≤ j → get_elem? buffer j ≡ get_elem? c.draw_buffer j)

Draws-bind :
    {hi : ℕ} (c : NotoFontDisplay) {m : Exec NotoFontDisplay}
    (f : NotoFontDisplay → Exec NotoFontDisplay)
    → Draws hi c m
    → ((buffer : List ℕ)
        → length buffer ≡ length c.draw_buffer
        → let c' = record c { draw_buffer = buffer } in Draws hi c' (f c'))
    → Draws hi c (m >>= f)
Draws-bind c f d k =
    let d' = k d.0 d.2 in
    (d'.0, ap (λ r. r >>= f) d.1 ∙ d'.1, d'.2 ∙ d.2, λ j h. d'.3 j h ∙ d.3 j h)

draw_pixel-Draws :
    (i n hi : ℕ) (c : NotoFontDisplay)
    → i < hi
    → hi ≤ length c.draw_buffer
    → Draws hi c (draw_pixel i n c)
unfolding draw_pixel
draw_pixel-Draws i n hi c h l =
    let p = get_elem?_of_lt c.draw_buffer i (omega arith) in
    (
      set c.draw_buffer i (blend p.0 n),
      rw p.1 refl,
      length-set c.draw_buffer i (blend p.0 n),
      λ j hj. get_elem?-set_ne c.draw_buffer i j (blend p.0 n) (λ e. omega arith),
    )

draw_row-Draws :
    (row : List ℕ) (x col r hi : ℕ) (c : NotoFontDisplay)
    → x + (col + length row) + r * c.stride + c.cursor_x + c.cursor_y * c.stride ≤ hi
    → hi ≤ length c.draw_buffer
    → hi < 2 ^ 64
    → Draws hi c (draw_row row x col r c)
unfolding draw_row pixel_index
draw_row-Draws [] x col r hi c h l w = (c.draw_buffer, refl, refl, λ j h. refl)
draw_row-Draws (i ∷ row) x col r hi c h l w =
    Draws-bind c _ (draw_pixel-Draws _ i hi c (omega arith) l) (λ buffer e.
      draw_row-Draws row x (suc col) r hi (record c { draw_buffer = buffer }) (omega arith)
        (omega arith) w)

draw_rows-Draws :
    (rows : List (List ℕ)) (x r W R hi : ℕ) (c : NotoFontDisplay)
    → All (λ row. length row ≤ W) rows
    → r + length rows ≤ suc R
    → x + W + R * c.stride + c.cursor_x + c.cursor_y * c.stride ≤ hi
    → hi ≤ length c.draw_buffer
    → hi < 2 ^ 64
    → Draws hi c (draw_rows rows x r c)
unfolding draw_rows
draw_rows-Draws [] x r W R hi c a n h l w = (c.draw_buffer, refl, refl, λ j h. refl)
draw_rows-Draws (row ∷ rows) x r W R hi c a n h l w =
    let mono : r * c.stride ≤ R * c.stride = mul-le-mul_right c.stride (omega arith) in
    Draws-bind c _ (draw_row-Draws row x 0 r hi c (omega (arith, a.0)) l w) (λ buffer e.
      draw_rows-Draws rows x (suc r) W R hi (record c { draw_buffer = buffer }) a.1 (omega arith) h
        (omega arith) w)

-- Of every glyph the font has, at most `W` wide with `suc R` rows of at most `W`; it has a space.
abbrev pub Fits :
    (get_raster : (char font_weight raster_height : ℕ) → Option Raster) (W R : ℕ)
    (c : NotoFontDisplay)
    → Type 0
Fits get_raster W R c =
    ((ch : ℕ) (raster : Raster)
      → get_raster ch c.font_weight c.raster_height ≡ some raster
      → (raster.width ≤ W) × (length raster.rows ≤ suc R) × All (λ row. length row ≤ W) raster.rows)
    × ((space : Raster) × (get_raster 0x20 c.font_weight c.raster_height ≡ some space))

module _ (get_raster : (char font_weight raster_height : ℕ) → Option Raster) (W R : ℕ) where
  char_raster-Fits :
      (ch : ℕ) (c : NotoFontDisplay)
      → Fits get_raster W R c
      → (raster : Raster) × (char_raster get_raster ch c ≡ done raster)
        × (raster.width ≤ W)
        × (length raster.rows ≤ suc R)
        × All (λ row. length row ≤ W) raster.rows
  unfolding char_raster
  char_raster-Fits ch c f = elim (Option-cases (get_raster ch c.font_weight c.raster_height)) [
    | inr p ↦ let g = f.0 ch p.0 p.1 in rw p.1 (p.0, refl, g.0, g.1, g.2)
    | inl e ↦ let g = f.0 0x20 f.1.0 f.1.1 in rw (e, f.1.1) (f.1.0, refl, g.0, g.1, g.2)
  ]

  draw_chars-Draws :
      (msg : List ℕ) (n hi : ℕ) (c : NotoFontDisplay)
      → Fits get_raster W R c
      → (n + length msg) * W + R * c.stride + c.cursor_x + c.cursor_y * c.stride ≤ hi
      → hi ≤ length c.draw_buffer
      → hi < 2 ^ 64
      → Draws hi c (draw_chars get_raster msg n c)
  unfolding draw_chars
  draw_chars-Draws [] n hi c f h l w = (c.draw_buffer, refl, refl, λ j h. refl)
  draw_chars-Draws (ch ∷ msg) n hi c f h l w =
      let g = char_raster-Fits ch c f in
      let left : n * g.0.width ≤ n * W = mul-le-mul_left n g.2 in
      let one : (n + 1) * W ≤ (n + length (ch ∷ msg)) * W = mul-le-mul_right W (omega arith) in
      let next : (suc n + length msg) * W ≡ (n + length (ch ∷ msg)) * W =
        ap (λ k. k * W) (omega arith) in
      rw g.1 (
        Draws-bind c _
          (draw_rows-Draws g.0.rows (n * g.0.width) 0 W R hi c g.4 (omega (arith, g.3))
            (omega arith) l w)
          (λ buffer e.
            draw_chars-Draws msg (suc n) hi (record c { draw_buffer = buffer }) f
              (omega (arith, next, h)) (omega arith) w))

  -- When the glyphs are at most W wide and R + 1 high, the font has a space, and the text fits in
  -- the buffer from the cursor on: draw_string does not panic, keeps the size of the buffer and
  -- every pixel behind the text's box, and moves the cursor down by the bytes of the text, since
  -- the cursor is left of the right edge.
  pub draw_string_lem :
      (msg : List ℕ) (hi : ℕ) (c : NotoFontDisplay)
      → Fits get_raster W R c
      → c.cursor_x < c.width
      → length msg * W + R * c.stride + c.cursor_x + c.cursor_y * c.stride ≤ hi
      → hi ≤ length c.draw_buffer
      → hi < 2 ^ 64
      → (buffer : List ℕ) × (draw_string get_raster msg c
          ≡ done (record c { draw_buffer = buffer; cursor_y = u64 (c.cursor_y + str_len msg) }))
        × (length buffer ≡ length c.draw_buffer)
        × ((j : ℕ) → hi ≤ j → get_elem? buffer j ≡ get_elem? c.draw_buffer j)
  unfolding draw_string move_cursor
  draw_string_lem msg hi c f x h l w =
      let d = draw_chars-Draws msg 0 hi c f (omega arith) l w in
      let left : leb c.width c.cursor_x ≡ false = ground arith in
      (d.0, rw (d.1, left) refl, d.2, d.3)
