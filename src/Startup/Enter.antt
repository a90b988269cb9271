-- ===== src/Startup/Enter.antt =====
-- The Enter key after `kernel_main` of kernel/src/main.rs: `shutdown` from the tables to the port.
use rix_os.Base.{ℕ, ◌≡◌, ◌⊎◌, some, u16, bit_or}
use rix_os.Machine
use rix_os.Acpi.PowerOff.{HasS5}
use rix_os.Startup.{Platform}
use rix_os.Startup.Conditions.{Handover}

module _ {T D S L P C E K H M Tables Fadt AmlName Namespace : Type 0}
    (b : Platform T D S L P C E K H M Tables Fadt AmlName Namespace) (log : L)
    (m : Handover Tables K) (virt : ℕ → ℕ) (W R : ℕ) where
  -- The tables name a PM1a control block at `pm1a` and the sleep type `v` of S5.
  abbrev pub HasSleep : (pm1a v : ℕ) → Type 0
  HasSleep = HasS5 b.addresses b.acpi b.bytes (some m.offset) m.rsdp

  -- The devices after the one port write of `shutdown`, `h` being those before: the word is the
  -- sleep type as it is, with the bit that starts the transition.
  abbrev pub WritesSleep : H → H → Type 0
  WritesSleep h h' =
      ((pm1a : ℕ) × (v : ℕ) × HasSleep pm1a v
        × (h' ≡ b.io.out16 (u16 pm1a) (bit_or (u16 v) 0x2000) h))
      ⊎ (((pm1a v : ℕ) → ¬ HasSleep pm1a v) × (h' ≡ b.io.out32 0xf4 0x10 h))
