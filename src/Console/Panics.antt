-- ===== src/Console/Panics.antt =====
-- `write_fmt` of kernel/src/console.rs, for text that does not fit on the screen.
use rix_os.Base.{
  ℕ, zero, suc, ◌+◌, ◌*◌, ◌^◌, ◌<◌, ◌≤◌, ◌≡◌, ◌⊎◌, false, Option, some, List, [], ◌∷◌, ◌++◌, refl,
  leb, length, u64, Exec, done, panic, ◌>>=◌, index, arith, Option-cases, Exec-cases, inl, inr, sym,
  ◌∙◌, ap, length-set, >>=-eq-done, done_eq,
}
use native.Mathlib.Nat.{mul-le-mul_right}
use rix_os.Console.{
  Raster, NotoFontDisplay, draw_pixel, pixel_index, draw_row, draw_rows, draw_chars, char_raster,
  draw_string, move_cursor, str_len, write_fmt, blend,
}

-- What drawing leaves alone, if it returns.
abbrev Keeps : (c c' : NotoFontDisplay) → Type 0
Keeps c c' =
    (c'.width ≡ c.width)
    × (c'.stride ≡ c.stride)
    × (c'.cursor_x ≡ c.cursor_x)
    × (c'.cursor_y ≡ c.cursor_y)
    × (length c'.draw_buffer ≡ length c.draw_buffer)

-- A computation from `c` keeps this if it returns.
abbrev Safe : (c : NotoFontDisplay) (m : Exec NotoFontDisplay) → Type 0
Safe c m = (c' : NotoFontDisplay) → m ≡ done c' → Keeps c c'

Safe-bind :
    (c : NotoFontDisplay) (m : Exec NotoFontDisplay) (f : NotoFontDisplay → Exec NotoFontDisplay)
    → Safe c m
    → ((c' : NotoFontDisplay) → Safe c' (f c'))
    → Safe c (m >>= f)
Safe-bind c m f s k c' e =
    let p = >>=-eq-done m f e in
    let a = s p.0 p.1 in
    let b = k p.0 c' p.2 in (b.0 ∙ a.0, b.1 ∙ a.1, b.2 ∙ a.2, b.3 ∙ a.3, b.4 ∙ a.4)

Safe-done : (c : NotoFontDisplay) → Safe c (done c)
Safe-done c c' e =
    let p = sym (done_eq e) in
    (
      ap (λ d. d.width) p,
      ap (λ d. d.stride) p,
      ap (λ d. d.cursor_x) p,
      ap (λ d. d.cursor_y) p,
      ap (λ d. length d.draw_buffer) p,
    )

draw_pixel-Safe : (i n : ℕ) (c : NotoFontDisplay) → Safe c (draw_pixel i n c)
unfolding draw_pixel
draw_pixel-Safe i n c c' e =
    let p = >>=-eq-done (index c.draw_buffer i) _ e in
    let k = Safe-done _ c' p.2 in
    (k.0, k.1, k.2, k.3, k.4 ∙ length-set c.draw_buffer i (blend p.0 n))

draw_row-Safe : (row : List ℕ) (x col r : ℕ) (c : NotoFontDisplay) → Safe c (draw_row row x col r c)
unfolding draw_row
draw_row-Safe [] x col r c = Safe-done c
draw_row-Safe (i ∷ row) x col r c =
    Safe-bind c _ _ (draw_pixel-Safe _ i c) (λ c'. draw_row-Safe row x (suc col) r c')

draw_rows-Safe :
    (rows : List (List ℕ)) (x r : ℕ) (c : NotoFontDisplay) → Safe c (draw_rows rows x r c)
unfolding draw_rows
draw_rows-Safe [] x r c = Safe-done c
draw_rows-Safe (row ∷ rows) x r c =
    Safe-bind c _ _ (draw_row-Safe row x 0 r c) (λ c'. draw_rows-Safe rows x (suc r) c')

index-panic : (xs : List ℕ) (i : ℕ) → length xs ≤ i → index xs i ≡ panic
index-panic [] i h = refl
index-panic (x ∷ xs) zero h = absurd (omega arith)
index-panic (x ∷ xs) (suc i) h = index-panic xs i (omega arith)

pixel_index-ge :
    (W : ℕ) (c : NotoFontDisplay)
    → length c.draw_buffer ≤ c.cursor_x + c.cursor_y * c.stride
    → c.cursor_x + c.cursor_y * c.stride < 2 ^ 64
    → length c.draw_buffer ≤ pixel_index (0 * W) 0 0 c
unfolding pixel_index
pixel_index-ge W c l w = omega arith

move_cursor-left :
    (len : ℕ) (c : NotoFontDisplay)
    → c.cursor_x < c.width
    → move_cursor len c ≡ record c { cursor_y = u64 (c.cursor_y + len) }
unfolding move_cursor
move_cursor-left len c x = let left : leb c.width c.cursor_x ≡ false = ground arith in rw left refl

module _ (get_raster : (char font_weight raster_height : ℕ) → Option Raster) where
  draw_chars-Safe :
      (msg : List ℕ) (n : ℕ) (c : NotoFontDisplay) → Safe c (draw_chars get_raster msg n c)
  unfolding draw_chars
  draw_chars-Safe [] n c = Safe-done c
  draw_chars-Safe (ch ∷ msg) n c = λ c' e.
      let p = >>=-eq-done (char_raster get_raster ch c) _ e in
      Safe-bind c _ _ (draw_rows-Safe p.0.rows (n * p.0.width) 0 c)
        (λ d. draw_chars-Safe msg (suc n) d) c' p.2

  -- The glyphs of the font have a first pixel.
  abbrev pub HasPixels : Type 0
  HasPixels =
      (ch w h : ℕ) (raster : Raster)
      → get_raster ch w h ≡ some raster
      → (i : ℕ) × (row : List ℕ) × (rows : List (List ℕ)) × (raster.rows ≡ (i ∷ row) ∷ rows)

  first_raster :
      HasPixels
      → (ch : ℕ) (c : NotoFontDisplay)
      → (char_raster get_raster ch c ≡ panic)
        ⊎ ((raster : Raster) × (i : ℕ) × (row : List ℕ) × (rows : List (List ℕ)) × (char_raster
                get_raster ch c
              ≡ done raster)
            × (raster.rows ≡ (i ∷ row) ∷ rows))
  unfolding char_raster
  first_raster has ch c = elim (Option-cases (get_raster ch c.font_weight c.raster_height)) [
    | inr p ↦
        let g = has ch c.font_weight c.raster_height p.0 p.1 in
        rw p.1 (inr (p.0, g.0, g.1, g.2, refl, g.3))
    | inl e ↦ elim (Option-cases (get_raster 0x20 c.font_weight c.raster_height)) [
      | inr p ↦
          let g = has 0x20 c.font_weight c.raster_height p.0 p.1 in
          rw (e, p.1) (inr (p.0, g.0, g.1, g.2, refl, g.3))
      | inl e' ↦ rw (e, e') (inl refl)
    ]
  ]

  -- The first pixel of a text lies behind the buffer.
  draw_string-panic :
      HasPixels
      → (ch : ℕ) (msg : List ℕ) (c : NotoFontDisplay)
      → length c.draw_buffer ≤ c.cursor_x + c.cursor_y * c.stride
      → c.cursor_x + c.cursor_y * c.stride < 2 ^ 64
      → draw_string get_raster (ch ∷ msg) c ≡ panic
  unfolding draw_string draw_chars draw_rows draw_row draw_pixel pixel_index
  draw_string-panic has ch msg c l w = elim (first_raster has ch c) [
    | inl e ↦ rw e refl
    | inr p ↦ rw (p.4, p.5, index-panic c.draw_buffer _ (pixel_index-ge p.0.width c l w)) refl
  ]

  draw_string-done :
      (msg : List ℕ) (c c' : NotoFontDisplay)
      → c.cursor_x < c.width
      → draw_string get_raster msg c ≡ done c'
      → Keeps (record c { cursor_y = u64 (c.cursor_y + str_len msg) }) c'
  unfolding draw_string move_cursor
  draw_string-done msg c c' x e =
      let p = >>=-eq-done (draw_chars get_raster msg 0 c) _ e in
      let k = draw_chars-Safe msg 0 c p.0 p.1 in
      let q =
        Safe-done (record p.0 { cursor_y = u64 (p.0.cursor_y + str_len msg) }) c'
          (ap done (sym (move_cursor-left (str_len msg) p.0 (omega (arith, k.0, k.2)))) ∙ p.2) in
      (q.0 ∙ k.0, q.1 ∙ k.1, q.2 ∙ k.2, q.3 ∙ ap (λ y. u64 (y + str_len msg)) k.3, q.4 ∙ k.4)

  -- The bytes of all the pieces.
  abbrev pub total : List (List ℕ) → ℕ
  total [] = 0
  total (s ∷ pieces) = str_len s + total pieces

  -- When the cursor is at the left edge of a screen with a frame buffer of stride * height pixels,
  -- and every glyph has a first pixel: once the pieces of text written have as many bytes as there
  -- are rows of pixels below the cursor, one more non-empty piece panics. (The cursor moves down a
  -- row of pixels for each byte, and nothing brings it back up.)
  pub write_fmt-panic :
      HasPixels
      → (ch : ℕ) (msg : List ℕ) (pieces : List (List ℕ)) (height : ℕ) (c : NotoFontDisplay)
      → c.cursor_x ≡ 0
      → 0 < c.width
      → length c.draw_buffer ≡ height * c.stride
      → height ≤ c.cursor_y + total pieces
      → c.cursor_y + total pieces < 2 ^ 64
      → (c.cursor_y + total pieces) * c.stride < 2 ^ 64
      → write_fmt get_raster (pieces ++ (ch ∷ msg) ∷ []) c ≡ panic
  unfolding write_fmt
  write_fmt-panic has ch msg [] height c x w b h t u =
      let below : height * c.stride ≤ c.cursor_y * c.stride =
        mul-le-mul_right c.stride (omega arith) in
      let same : (c.cursor_y + 0) * c.stride ≡ c.cursor_y * c.stride =
        ap (λ y. y * c.stride) (omega arith) in
      rw (draw_string-panic has ch msg c (omega arith) (omega arith)) refl
  write_fmt-panic has ch msg (s ∷ pieces) height c x w b h t u =
      elim (Exec-cases (draw_string get_raster s c)) [
        | inl e ↦ rw e refl
        | inr p ↦
            let c' = p.0 in
            let k = draw_string-done s c c' (omega arith) p.1 in
            let y : c'.cursor_y + total pieces ≡ c.cursor_y + total (s ∷ pieces) =
              omega (arith, k.3) in
            let buffer : length c'.draw_buffer ≡ height * c'.stride =
              k.4 ∙ b ∙ ap (λ n. height * n) (sym k.1) in
            let small : (c'.cursor_y + total pieces) * c'.stride < 2 ^ 64 = rw (y, k.1) u in
            rw p.1 (
              write_fmt-panic has ch msg pieces height c' (k.2 ∙ x) (omega (arith, k.0)) buffer
                (omega arith) (omega arith) small)
      ]
