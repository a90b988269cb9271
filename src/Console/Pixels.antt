-- ===== src/Console/Pixels.antt =====
-- One pixel that `draw_string` of kernel/src/console.rs draws over.
use rix_os.Base.{ℕ, ◌+◌, ◌*◌, ◌/◌, ◌%◌, ◌^◌, ◌<◌, ◌≡◌, u8, bit_and, arith}
use rix_os.Base.Bits.{bit_and_high, bit_and_low}
use rix_os.Console.{saturating_add, blend}

-- The three channels of a pixel.
abbrev pub red : ℕ → ℕ
red p = p / 2 ^ 16 % 2 ^ 8

abbrev pub green : ℕ → ℕ
green p = p / 2 ^ 8 % 2 ^ 8

abbrev pub blue : ℕ → ℕ
blue p = p % 2 ^ 8

saturating_add-lt : (a b : ℕ) → saturating_add a b < 256
unfolding saturating_add
saturating_add-lt a b = ground arith

channels :
    (r g b : ℕ)
    → r < 256
    → g < 256
    → b < 256
    → let p = r * 2 ^ 16 + g * 2 ^ 8 + b in
      (red p ≡ r) × (green p ≡ g) × (blue p ≡ b) × (p < 2 ^ 24)
channels r g b hr hg hb = (omega arith, omega arith, omega arith, omega arith)

mask_red : (p : ℕ) → u8 (bit_and p 0xff0000 / 2 ^ 16) ≡ red p
mask_red p = omega (arith, bit_and_high 16 8 p)

mask_green : (p : ℕ) → u8 (bit_and p 0xff00 / 2 ^ 8) ≡ green p
mask_green p = omega (arith, bit_and_high 8 8 p)

mask_blue : (p : ℕ) → u8 (bit_and p 0xff) ≡ blue p
mask_blue p = omega (arith, bit_and_low 8 p)

-- Drawing an intensity over a pixel adds it to each of the three colours, to at most 255, and
-- leaves the top byte empty.
pub blend_lem :
    (p i : ℕ)
    → (red (blend p i) ≡ saturating_add (red p) i)
      × (green (blend p i) ≡ saturating_add (green p) i)
      × (blue (blend p i) ≡ saturating_add (blue p) i)
      × (blend p i < 2 ^ 24)
unfolding blend
blend_lem p i =
    rw (mask_red p, mask_green p, mask_blue p)
      (channels _ _ _ (saturating_add-lt (red p) i) (saturating_add-lt (green p) i)
        (saturating_add-lt (blue p) i))
