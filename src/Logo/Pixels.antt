-- ===== src/Logo/Pixels.antt =====
-- The loops of kernel/src/main.rs that draw the logo, against the pixels of the image.
use native.Mathlib.Nat.{mul-le-mul_right}
use rix_os.Base.{
  ℕ, zero, suc, ◌+◌, ◌*◌, ◌^◌, ◌<◌, ◌≤◌, ◌≡◌, ◌≢◌, refl, sym, ap, subst, ◌∙◌, inl, inr, true, some,
  ◌==◌, u32, u64, done, length, get_elem?, get_elem?_of_lt, arith, Bool-cases, ==_iff, some_eq,
}
use rix_os.Io.{Ports}
use rix_os.Bga.{bga_set_video_mode, bga_set_bank}
use rix_os.Logo.{Pixel, Image, FrameBuffer, color, write, draw_columns, draw_lines, show_logo}

module _ (img : Image) (before : FrameBuffer) where
  -- The first `n` pixels are drawn, and nothing else.
  abbrev pub Drawn : (n : ℕ) → FrameBuffer → Type 0
  Drawn n fb =
      (k : ℕ)
      → ((p : Pixel) → k < n → get_elem? img.pixels k ≡ some p → fb k ≡ color p)
        × (n ≤ k → fb k ≡ before k)

  write-Drawn :
      (n : ℕ) (p : Pixel) (fb : FrameBuffer)
      → get_elem? img.pixels n ≡ some p
      → Drawn n fb
      → Drawn (n + 1) (write n (color p) fb)
  write-Drawn n p fb at d k = elim (Bool-cases (k == n)) [
    | inl e ↦
        let same : k ≡ n = (==_iff k n).0 e in
        rw e (
          (λ q lt at'. ap color (some_eq (sym at ∙ ap (get_elem? img.pixels) (sym same) ∙ at'))),
          λ le. absurd (omega arith),
        )
    | inr e ↦
        let differ : k ≢ n = ground arith in
        rw e ((λ q lt at'. (d k).0 q (omega arith) at'), λ le. (d k).1 (omega arith))
  ]

  module _ (full : length img.pixels ≡ img.height * img.width)
      (small : img.height * img.width < 2 ^ 32) where
    draw_columns-Drawn :
        (left x y : ℕ) (fb : FrameBuffer)
        → x + left ≡ img.width
        → y < img.height
        → Drawn (y * img.width + x) fb
        → (fb' : FrameBuffer) × (draw_columns left x y img fb ≡ done fb')
          × Drawn (y * img.width + img.width) fb'
    unfolding draw_columns
    draw_columns-Drawn zero x y fb e l d =
        let p : y * img.width + x ≡ y * img.width + img.width = omega arith in
        (fb, refl, subst (λ n. Drawn n fb) p d)
    draw_columns-Drawn (suc left) x y fb e l d =
        let n = y * img.width + x in
        let line : suc y * img.width ≤ img.height * img.width =
          mul-le-mul_right img.width (omega arith) in
        let line' : suc y * img.width ≡ y * img.width + img.width = omega arith in
        let inside : n < length img.pixels = omega arith in
        let src : u32 n ≡ n = omega arith in
        let dst : u64 n ≡ n = omega arith in
        let p = get_elem?_of_lt img.pixels n inside in
        let next : n + 1 ≡ y * img.width + suc x = omega arith in
        let d' = subst (λ m. Drawn m (write n (color p.0) fb)) next (write-Drawn n p.0 fb p.1 d) in
        rw (src, dst, p.1) (draw_columns-Drawn left (suc x) y _ (omega arith) l d')

    draw_lines-Drawn :
        (left y : ℕ) (fb : FrameBuffer)
        → y + left ≡ img.height
        → Drawn (y * img.width) fb
        → (fb' : FrameBuffer) × (draw_lines left y img fb ≡ done fb')
          × Drawn (img.height * img.width) fb'
    unfolding draw_lines
    draw_lines-Drawn zero y fb e d =
        let p : y ≡ img.height = omega arith in
        (fb, refl, subst (λ n. Drawn (n * img.width) fb) p d)
    draw_lines-Drawn (suc left) y fb e d =
        let start : y * img.width ≡ y * img.width + 0 = omega arith in
        let r =
          draw_columns-Drawn img.width 0 y fb (omega arith) (omega arith)
            (subst (λ n. Drawn n fb) start d) in
        let next : y * img.width + img.width ≡ suc y * img.width = omega arith in
        rw r.1 (draw_lines-Drawn left (suc y) r.0 (omega arith) (subst (λ n. Drawn n r.0) next r.2))

    -- For an image of fewer than 2 ^ 32 pixels that has height * width of them: drawing the logo
    -- sets the mode of its size and bank 0, does not panic, puts the colour of the k-th pixel into
    -- the k-th word of the frame buffer, for each pixel, and changes no word behind them.
    pub show_logo_lem :
        {H : Type 0} (io : Ports H) (h : H)
        → (fb : FrameBuffer) × (show_logo io img h before
            ≡ done
                (bga_set_bank io 0 (bga_set_video_mode io img.width img.height 32 true true h), fb))
          × Drawn (img.height * img.width) fb
    unfolding show_logo
    show_logo_lem io h =
        let r =
          draw_lines-Drawn img.height 0 before (omega arith)
            (λ k. ((λ p lt at. absurd (omega arith)), λ le. refl)) in
        (r.0, rw r.1 refl, r.2)
