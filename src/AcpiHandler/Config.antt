-- ===== src/AcpiHandler/Config.antt =====
-- Byte and word accesses to PCI configuration registers.
use native.Mathlib.Nat.{one-le-pow, mod-lt, mod-eq_of_lt}
use rix_os.Base.{
  ℕ, zero, suc, ◌+◌, ◌-◌, ◌*◌, ◌/◌, ◌%◌, ◌^◌, ◌<◌, ◌≡◌, refl, ap, ap₂, ◌∙◌, ◌==◌, if◌then◌else◌,
  arith, bit_and, bit_or,
}
use rix_os.Base.Bits.{
  bit_and_split, bit_or_split, bit_or_add, bit_or-zero, bit_and-zero, bit_and_low, bit_and_high,
}
use rix_os.AcpiHandler.{put_u8, put_u16}

-- `(x & !(ones << s)) | (v << s)` replaces the `w` digits of `x` from `s` on, `t` more being above.
replace_field :
    (s w t h m l v : ℕ)
    → h < 2 ^ t
    → m < 2 ^ w
    → l < 2 ^ s
    → v < 2 ^ w
    → bit_or
        (bit_and ((h * 2 ^ w + m) * 2 ^ s + l) (((2 ^ t - 1) * 2 ^ w + 0) * 2 ^ s + (2 ^ s - 1)))
        (v * 2 ^ s + 0)
      ≡ (h * 2 ^ w + v) * 2 ^ s + l
replace_field s w t h m l v hh hm hl hv =
    ap (λ k. bit_or k (v * 2 ^ s + 0)) masked
    ∙ bit_or_split s (h * 2 ^ w) l v 0 hl (one-le-pow s 2 (omega arith))
    ∙ ap₂ (λ a b. a * 2 ^ s + b) (bit_or_add w h v hv) (bit_or-zero l)
  where
    high : bit_and (h * 2 ^ w + m) ((2 ^ t - 1) * 2 ^ w + 0) ≡ h * 2 ^ w
    high =
        bit_and_split w h m (2 ^ t - 1) 0 hm (one-le-pow w 2 (omega arith))
        ∙ ap₂ (λ a b. a * 2 ^ w + b) (bit_and_low t h ∙ mod-eq_of_lt hh) (bit_and-zero m)
        ∙ omega arith

    masked :
        bit_and ((h * 2 ^ w + m) * 2 ^ s + l) (((2 ^ t - 1) * 2 ^ w + 0) * 2 ^ s + (2 ^ s - 1))
        ≡ h * 2 ^ w * 2 ^ s + l
    masked =
        bit_and_split s (h * 2 ^ w + m) l ((2 ^ t - 1) * 2 ^ w + 0) (2 ^ s - 1) hl
          (omega (arith, one-le-pow s 2))
        ∙ ap₂ (λ a b. a * 2 ^ s + b) high (bit_and_low s l ∙ mod-eq_of_lt hl)

-- The same where the three numbers are given as they are computed.
replace_in :
    (s w t x mask y v : ℕ)
    → x ≡ (x / 2 ^ s / 2 ^ w * 2 ^ w + x / 2 ^ s % 2 ^ w) * 2 ^ s + x % 2 ^ s
    → mask ≡ ((2 ^ t - 1) * 2 ^ w + 0) * 2 ^ s + (2 ^ s - 1)
    → y ≡ v * 2 ^ s + 0
    → x / 2 ^ s / 2 ^ w < 2 ^ t
    → v < 2 ^ w
    → bit_or (bit_and x mask) y ≡ (x / 2 ^ s / 2 ^ w * 2 ^ w + v) * 2 ^ s + x % 2 ^ s
replace_in s w t x mask y v e f g hx hv =
    ap₂ bit_or (ap₂ bit_and e f) g
    ∙ replace_field s w t (x / 2 ^ s / 2 ^ w) (x / 2 ^ s % 2 ^ w) (x % 2 ^ s) v hx
        (mod-lt _ (one-le-pow w 2 (omega arith))) (mod-lt _ (one-le-pow s 2 (omega arith))) hv

-- Byte `k` of a register, and 16-bit word `k` of it.
abbrev pub byte_of : (k x : ℕ) → ℕ
byte_of k x = x / 256 ^ k % 256

abbrev pub word_of : (k x : ℕ) → ℕ
word_of k x = x / 65536 ^ k % 65536

low_two : (offset : ℕ) → bit_and offset 3 ≡ offset % 4
low_two offset = bit_and_low 2 offset

module _ (x v : ℕ) (hx : x < 2 ^ 32) (hv : v < 256) where
  put_u8_zero : (o : ℕ) → bit_and o 3 ≡ 0 → put_u8 x o v ≡ x / 256 * 256 + v
  unfolding put_u8
  put_u8_zero o e =
      rw e
        (replace_in 0 8 24 x _ _ v (omega arith) refl (omega arith) (omega arith) hv ∙ omega arith)

  put_u8_one : (o : ℕ) → bit_and o 3 ≡ 1 → put_u8 x o v ≡ (x / 65536 * 256 + v) * 256 + x % 256
  unfolding put_u8
  put_u8_one o e =
      rw e
        (replace_in 8 8 16 x _ _ v (omega arith) refl (omega arith) (omega arith) hv ∙ omega arith)

  put_u8_two :
      (o : ℕ) → bit_and o 3 ≡ 2 → put_u8 x o v ≡ (x / 16777216 * 256 + v) * 65536 + x % 65536
  unfolding put_u8
  put_u8_two o e =
      rw e
        (replace_in 16 8 8 x _ _ v (omega arith) refl (omega arith) (omega arith) hv ∙ omega arith)

  put_u8_three : (o : ℕ) → bit_and o 3 ≡ 3 → put_u8 x o v ≡ v * 16777216 + x % 16777216
  unfolding put_u8
  put_u8_three o e =
      rw e
        (replace_in 24 8 0 x _ _ v (omega arith) refl (omega arith) (omega arith) hv ∙ omega arith)

  -- `write_pci_u8` replaces the byte that the two lowest bits of the offset name, and no other.
  pub put_u8_bytes :
      (o k : ℕ) → k < 4 → byte_of k (put_u8 x o v) ≡ (if k == o % 4 then v else byte_of k x)
  put_u8_bytes o zero h = ground (
    arith,
    low_two o,
    put_u8_zero o,
    put_u8_one o,
    put_u8_two o,
    put_u8_three o,
    mod-lt o {m = 4},
  )
  put_u8_bytes o (suc zero) h = ground (
    arith,
    low_two o,
    put_u8_zero o,
    put_u8_one o,
    put_u8_two o,
    put_u8_three o,
    mod-lt o {m = 4},
  )
  put_u8_bytes o (suc (suc zero)) h = ground (
    arith,
    low_two o,
    put_u8_zero o,
    put_u8_one o,
    put_u8_two o,
    put_u8_three o,
    mod-lt o {m = 4},
  )
  put_u8_bytes o (suc (suc (suc zero))) h = ground (
    arith,
    low_two o,
    put_u8_zero o,
    put_u8_one o,
    put_u8_two o,
    put_u8_three o,
    mod-lt o {m = 4},
  )
  put_u8_bytes o (suc (suc (suc (suc k)))) h = absurd (omega arith)

  pub put_u8-lt : (o : ℕ) → put_u8 x o v < 2 ^ 32
  put_u8-lt o = ground (
    arith,
    low_two o,
    put_u8_zero o,
    put_u8_one o,
    put_u8_two o,
    put_u8_three o,
    mod-lt o {m = 4},
  )

bit_one : (offset : ℕ) → bit_and offset 2 ≡ offset / 2 % 2 * 2
bit_one offset = bit_and_high 1 1 offset

module _ (x v : ℕ) (hx : x < 2 ^ 32) (hv : v < 65536) where
  put_u16_low : (o : ℕ) → bit_and o 2 ≡ 0 → put_u16 x o v ≡ x / 65536 * 65536 + v
  unfolding put_u16
  put_u16_low o e =
      rw e
        (replace_in 0 16 16 x _ _ v (omega arith) refl (omega arith) (omega arith) hv ∙ omega arith)

  put_u16_high : (o : ℕ) → bit_and o 2 ≡ 2 → put_u16 x o v ≡ v * 65536 + x % 65536
  unfolding put_u16
  put_u16_high o e =
      rw e
        (replace_in 16 16 0 x _ _ v (omega arith) refl (omega arith) (omega arith) hv ∙ omega arith)

  -- `write_pci_u16` replaces the word that bit 1 of the offset names, and not the other.
  pub put_u16_words :
      (o k : ℕ) → k < 2 → word_of k (put_u16 x o v) ≡ (if k == o / 2 % 2 then v else word_of k x)
  put_u16_words o zero h =
      ground (arith, bit_one o, put_u16_low o, put_u16_high o, mod-lt (o / 2) {m = 2})
  put_u16_words o (suc zero) h =
      ground (arith, bit_one o, put_u16_low o, put_u16_high o, mod-lt (o / 2) {m = 2})
  put_u16_words o (suc (suc k)) h = absurd (omega arith)

  pub put_u16-lt : (o : ℕ) → put_u16 x o v < 2 ^ 32
  put_u16-lt o = ground (arith, bit_one o, put_u16_low o, put_u16_high o, mod-lt (o / 2) {m = 2})
