-- ===== src/Acpi.antt =====
-- kernel/src/acpi/mod.rs: the search for the S5 sleep type, and the power-off.
pub mod PowerOff
use rix_os.Base.{
  ℕ, ◌+◌, ◌-◌, ◌^◌, Bool, true, false, Option, none, some, List, [], ◌∷◌, if◌then◌else◌, zero, suc,
  u16, u64, Exec, done, panic, leb, ◌>>=◌, bit_or,
}
use rix_os.Io.{Ports}
use rix_os.PhysMemory.{Addresses, Offset, physical_to_virtual}

pub record AcpiShutdown : Type 0 where
  pub pm1a_control_block : ℕ
  pub slp_typ_a : ℕ
  pub slp_len : ℕ
  pub use_qemu_fallback : Bool

-- `ACPI_SHUTDOWN` before `init`.
abbrev pub default : AcpiShutdown
default = record { pm1a_control_block = 0; slp_typ_a = 0; slp_len = 0; use_qemu_fallback = true }

-- An `AmlSdt` of the crate acpi.
pub record Dsdt : Type 0 where
  pub phys_address : ℕ
  pub length : ℕ

-- `AmlValue` of the crate aml: its integers, and its packages by what they hold.
pub data AmlItem : Type 0 where
  integer : ℕ → AmlItem
  other_item : AmlItem

pub data AmlValue : Type 0 where
  aml_package : List AmlItem → AmlValue
  other_value : AmlValue

-- What `init` calls of the crates acpi and aml; `none` stands for an error, which is only logged.
pub record AcpiCrates (Tables Fadt AmlName Namespace : Type 0) : Type 0 where
  pub from_rsdp : ℕ → Option Tables
  pub dsdt : Tables → Option Dsdt
  pub find_fadt : Tables → Option Fadt
  pub pm1a_control_block : Fadt → Option ℕ
  pub parse_table : List ℕ → Option Namespace
  pub from_str_s5 : Option AmlName
  pub get_by_path : Namespace → AmlName → Option AmlValue

-- `let a = match o { Ok(a) => a, Err(_) => return }`
abbrev pub or_return {ℓ κ} :
    {A : Type ℓ} {B : Type κ} → Option A → (A → Exec (Option B)) → Exec (Option B)
or_return none f = done none
or_return (some a) f = f a

-- `slice::from_raw_parts(start, length)`
unfoldable pub slice : (memory : ℕ → ℕ) (start length : ℕ) → List ℕ
slice memory start zero = []
slice memory start (suc n) = memory start ∷ slice memory (start + 1) n

-- The last `match`: `*v as u16` of the first item of the package `\_S5`.
abbrev pub first_integer : Option AmlValue → Option ℕ
first_integer (some (aml_package (integer v ∷ items))) = some (u16 v)
first_integer (some (aml_package (other_item ∷ items))) = none
first_integer (some (aml_package [])) = none
first_integer (some other_value) = none
first_integer none = none

-- The assignment to `*ACPI_SHUTDOWN.lock()`; after an early return there is none.
abbrev pub set_shutdown : Option (ℕ × ℕ) → AcpiShutdown → AcpiShutdown
set_shutdown none s = s
set_shutdown (some found) s = record {
  pm1a_control_block = found.0;
  slp_typ_a = found.1;
  slp_len = 2 ^ 13;
  use_qemu_fallback = false;
}

module _ (x : Addresses) {Tables Fadt AmlName Namespace : Type 0}
    (k : AcpiCrates Tables Fadt AmlName Namespace) (memory : ℕ → ℕ) (o : Offset) where
  -- The block of `slp_typ_a`. To take the header's 36 bytes off a shorter table overflows, which
  -- panics with overflow checks; without them the slice would be of nearly 2 ^ 64 bytes.
  unfoldable pub parse_s5 : Dsdt → Exec (Option ℕ)
  parse_s5 d = do
    addr ← x.phys_new d.phys_address
    ptr ← physical_to_virtual x o addr
    aml_length ← if leb 36 d.length then done (d.length - 36) else panic
    or_return (k.parse_table (slice memory (ptr + 36) aml_length))
        λ aml. or_return k.from_str_s5 λ name. done (first_integer (k.get_by_path aml name))

  -- The address and sleep type that `init` finds, or nothing where it returns early.
  unfoldable pub find_s5 : (rsdp_addr : ℕ) → Exec (Option (ℕ × ℕ))
  find_s5 rsdp_addr = or_return (k.from_rsdp rsdp_addr) λ tables. or_return (k.dsdt tables) λ d.
      or_return (k.find_fadt tables) λ fadt.
        or_return (k.pm1a_control_block fadt)
          λ pm1a. parse_s5 d >>= λ slp_typ_a. or_return slp_typ_a λ v. done (some (pm1a, v))

  unfoldable pub init : (rsdp_addr : ℕ) → AcpiShutdown → Exec AcpiShutdown
  init rsdp_addr s = do found ← find_s5 rsdp_addr; done (set_shutdown found s)

module _ {H : Type 0} (io : Ports H) where
  unfoldable pub shutdown : AcpiShutdown → H → H
  shutdown s h =
      if s.use_qemu_fallback
      then io.out32 0xf4 0x10 h
      else io.out16 (u16 s.pm1a_control_block) (bit_or s.slp_typ_a s.slp_len) h
