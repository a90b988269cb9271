-- ===== src/PhysMemory/Bytes.antt =====
-- Memory by bytes, and the little-endian loads and stores of 1, 2, 4 and 8 bytes.
use native.Mathlib.Nat.{pow-suc}
use rix_os.Base.{
  ℕ, zero, suc, ◌+◌, ◌*◌, ◌/◌, ◌%◌, ◌^◌, ◌<◌, ◌≤◌, ◌≡◌, refl, ◌⊎◌, ◌==◌, if◌then◌else◌, arith,
}

abbrev pub Bytes : Type 0
Bytes = ℕ → ℕ

-- `*p` at a type of `n` bytes
unfoldable pub load : (n a : ℕ) → Bytes → ℕ
load zero a m = 0
load (suc n) a m = m a % 256 + load n (a + 1) m * 256

-- `*p = v` at a type of `n` bytes
unfoldable pub store : (n a v : ℕ) → Bytes → Bytes
store zero a v m b = m b
store (suc n) a v m b = if b == a then v % 256 else store n (a + 1) (v / 256) m b

pub store_outside : (n a v : ℕ) (m : Bytes) (b : ℕ) → (b < a) ⊎ (a + n ≤ b) → store n a v m b ≡ m b
unfolding store
store_outside zero a v m b o = refl
store_outside (suc n) a v m b o = ground (arith, store_outside n (a + 1) (v / 256) m b)

load-agree : (n a : ℕ) (m m' : Bytes) → ((b : ℕ) → a ≤ b → m b ≡ m' b) → load n a m ≡ load n a m'
unfolding load
load-agree zero a m m' same = refl
load-agree (suc n) a m m' same =
    ground (arith, same a, load-agree n (a + 1) m m' (λ b h. same b (omega arith)))

-- A load finds what a store of the same width put there.
pub load-store_self : (n a v : ℕ) (m : Bytes) → v < 256 ^ n → load n a (store n a v m) ≡ v
unfolding load store
load-store_self zero a v m h = omega arith
load-store_self (suc n) a v m h =
    let rest = load-store_self n (a + 1) (v / 256) m (omega (arith, pow-suc 256 n)) in
    let same =
      load-agree n (a + 1) (store (suc n) a v m) (store n (a + 1) (v / 256) m)
        (λ b l. ground arith) in
    ground (arith, rest, same)

-- A load of `k` bytes finds what was there before a store of `n` bytes that it does not overlap.
pub load-store_apart :
    (k n a b v : ℕ) (m : Bytes) → (b + k ≤ a) ⊎ (a + n ≤ b) → load k b (store n a v m) ≡ load k b m
unfolding load
load-store_apart zero n a b v m o = refl
load-store_apart (suc k) n a b v m o =
    ground (arith, store_outside n a v m b, load-store_apart k n a (b + 1) v m (omega arith))
