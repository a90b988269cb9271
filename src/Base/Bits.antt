-- ===== src/Base/Bits.antt =====
-- Laws of `&` and `|` on disjoint fields, at every width.
mod Digits
use Digits.{bit_and-digit, bit_or-digit, by_halves}
use Prim.Native.Nat.{ℕ, zero, suc, ◌+◌, ◌-◌, ◌*◌, ◌/◌, ◌%◌, ◌^◌, ◌≤◌, ◌<◌, bit_and, bit_or}
use mathlib.Core.Path.{◌≡◌, refl, ap, sym, ◌∙◌}
use native.Mathlib.Nat.{pow-suc, one-le-pow, div-add-mod, mod-lt}
use native.Mathlib.Omega.{arith}

pub bit_and-zero : (a : ℕ) → bit_and a 0 ≡ 0
bit_and-zero = by_halves (λ a. bit_and a 0 ≡ 0) refl (λ a h. omega (arith, bit_and-digit (suc a) 0))

pub zero-bit_and : (b : ℕ) → bit_and 0 b ≡ 0
zero-bit_and = by_halves (λ b. bit_and 0 b ≡ 0) refl (λ b h. omega (arith, bit_and-digit 0 (suc b)))

pub bit_or-zero : (a : ℕ) → bit_or a 0 ≡ a
bit_or-zero = by_halves (λ a. bit_or a 0 ≡ a) refl (λ a h. omega (arith, bit_or-digit (suc a) 0))

pub zero-bit_or : (b : ℕ) → bit_or 0 b ≡ b
zero-bit_or = by_halves (λ b. bit_or 0 b ≡ b) refl (λ b h. omega (arith, bit_or-digit 0 (suc b)))

double_field : (q k : ℕ) → q * 2 ^ suc k ≡ 2 * (q * 2 ^ k)
double_field q k = omega (arith, ap (λ (t : ℕ). q * t) (pow-suc 2 k))

-- `&` and `|` act on the digits below `k` and on those from `k` on apart.
pub bit_and_split :
    (k q r p s : ℕ)
    → r < 2 ^ k
    → s < 2 ^ k
    → bit_and (q * 2 ^ k + r) (p * 2 ^ k + s) ≡ bit_and q p * 2 ^ k + bit_and r s
bit_and_split zero q zero p zero hr hs = ground (arith, bit_and-zero 0)
bit_and_split zero q (suc r) p s hr hs = absurd (omega arith)
bit_and_split zero q zero p (suc s) hr hs = absurd (omega arith)
bit_and_split (suc k) q r p s hr hs = ground (
  arith,
  bit_and-digit (q * 2 ^ suc k + r) (p * 2 ^ suc k + s),
  bit_and-digit r s,
  double_field q k,
  double_field p k,
  double_field (bit_and q p) k,
  pow-suc 2 k,
  bit_and_split k q (r / 2) p (s / 2),
)

pub bit_or_split :
    (k q r p s : ℕ)
    → r < 2 ^ k
    → s < 2 ^ k
    → bit_or (q * 2 ^ k + r) (p * 2 ^ k + s) ≡ bit_or q p * 2 ^ k + bit_or r s
bit_or_split zero q zero p zero hr hs = ground (arith, bit_or-zero 0)
bit_or_split zero q (suc r) p s hr hs = absurd (omega arith)
bit_or_split zero q zero p (suc s) hr hs = absurd (omega arith)
bit_or_split (suc k) q r p s hr hs = ground (
  arith,
  bit_or-digit (q * 2 ^ suc k + r) (p * 2 ^ suc k + s),
  bit_or-digit r s,
  double_field q k,
  double_field p k,
  double_field (bit_or q p) k,
  pow-suc 2 k,
  bit_or_split k q (r / 2) p (s / 2),
)

-- `(q << k) | r` is a sum when `r` has at most `k` digits.
pub bit_or_add : (k q r : ℕ) → r < 2 ^ k → bit_or (q * 2 ^ k) r ≡ q * 2 ^ k + r
bit_or_add k q r h =
    ground (arith, bit_or_split k q 0 0 r, bit_or-zero q, zero-bit_or r, one-le-pow k 2)

-- All of `k` digits are kept by `k` ones.
bit_and_ones : (k r : ℕ) → r < 2 ^ k → bit_and r (2 ^ k - 1) ≡ r
bit_and_ones zero r h = ground (arith, bit_and-zero r)
bit_and_ones (suc k) r h =
    ground
      (arith, bit_and-digit r (2 ^ suc k - 1), pow-suc 2 k, bit_and_ones k (r / 2), one-le-pow k 2)

-- A mask of `k` low digits is the remainder by `2 ^ k`.
pub bit_and_low : (k a : ℕ) → bit_and a (2 ^ k - 1) ≡ a % 2 ^ k
bit_and_low k a = ground (
  arith,
  bit_and_split k (a / 2 ^ k) (a % 2 ^ k) 0 (2 ^ k - 1),
  bit_and_ones k (a % 2 ^ k),
  bit_and-zero (a / 2 ^ k),
  one-le-pow k 2,
)

-- A mask of `j` digits from `k` on.
pub bit_and_high : (k j a : ℕ) → bit_and a ((2 ^ j - 1) * 2 ^ k) ≡ a / 2 ^ k % 2 ^ j * 2 ^ k
bit_and_high k j a = ground (
  arith,
  bit_and_split k (a / 2 ^ k) (a % 2 ^ k) (2 ^ j - 1) 0,
  bit_and_low j (a / 2 ^ k),
  bit_and-zero (a % 2 ^ k),
  one-le-pow k 2,
)
