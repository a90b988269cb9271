-- ===== src/Pci/Address.antt =====
-- The layout of a configuration address.
use rix_os.Base.{ℕ, ◌+◌, ◌*◌, ◌/◌, ◌%◌, ◌^◌, ◌<◌, ◌≡◌, arith, bit_and}
use rix_os.Base.Bits.{bit_or_add, bit_and_high}
use rix_os.Pci.{config_address}

register_of : (offset : ℕ) → bit_and offset 0xFC ≡ offset / 4 % 64 * 4
register_of offset = bit_and_high 2 6 offset

-- A configuration address has the enable bit, the bus, the device, the function and the register in
-- fields of their own, and the two lowest bits clear.
pub config_address-eq :
    (bus device function offset : ℕ)
    → bus < 256
    → device < 32
    → function < 8
    → config_address bus device function offset
      ≡ 2 ^ 31 + bus * 2 ^ 16 + device * 2 ^ 11 + function * 2 ^ 8 + offset / 4 % 64 * 4
unfolding config_address
config_address-eq bus device function offset hb hd hf = ground (
  arith,
  register_of offset,
  bit_or_add 31 1 (bus * 2 ^ 16),
  bit_or_add 16 (2 ^ 15 + bus) (device * 2 ^ 11),
  bit_or_add 11 (2 ^ 20 + bus * 32 + device) (function * 2 ^ 8),
  bit_or_add 8 (2 ^ 23 + bus * 256 + device * 8 + function) (offset / 4 % 64 * 4),
)

-- Two configuration addresses are the same only for the same bus, device, function and register; the
-- two lowest bits of the offset, and those from 8 on, do not count.
pub config_address_injective :
    (b d f o b' d' f' o' : ℕ)
    → (b < 256) × (d < 32) × (f < 8)
    → (b' < 256) × (d' < 32) × (f' < 8)
    → config_address b d f o ≡ config_address b' d' f' o'
    → (b ≡ b') × (d ≡ d') × (f ≡ f') × (o / 4 % 64 ≡ o' / 4 % 64)
config_address_injective b d f o b' d' f' o' (hb, hd, hf) (hb', hd', hf') e =
    let p = config_address-eq b d f o hb hd hf in
    let q = config_address-eq b' d' f' o' hb' hd' hf' in
    (omega (arith, p, q), omega (arith, p, q), omega (arith, p, q), omega (arith, p, q))
