-- ===== src/Startup/Interrupted.antt =====
-- Interrupts after `kernel_main` of kernel/src/main.rs has turned them on.
use rix_os.Base.{ℕ, ◌≡◌, some, false, done, done_eq, ap}
use rix_os.Machine
use rix_os.Interrupts.{Outcome, returns, halts}
use rix_os.Interrupts.Locks.Live.{IsLive}
use rix_os.Startup.{Platform, State}
use rix_os.Startup.Conditions.{Handover, CanBoot, IsBooted}

abbrev outcome : {S : Type 0} → Outcome S → S
outcome (returns s) = s
outcome (halts s) = s

pub returns_eq : {S : Type 0} {s t : S} → done (returns s) ≡ done (returns t) → s ≡ t
returns_eq e = ap outcome (done_eq e)

module _ {T D S L P C E K H M Tables Fadt AmlName Namespace : Type 0}
    (b : Platform T D S L P C E K H M Tables Fadt AmlName Namespace) (log : L)
    (m : Handover Tables K) (virt : ℕ → ℕ) (W R : ℕ) where
  -- The booted system has its local APIC and a valid scheduler.
  pub IsBooted-IsLive :
      (s : State T S L P C K H M) (h : CanBoot b log m virt W R)
      → IsBooted b log m virt W R h s
      → IsLive b.chips b.io b.addresses
          (some m.offset)
          b.get_raster
          (record { system = s.system; held = false })
  IsBooted-IsLive s h w =
      let ((chip, has_chip, has_local), valid) = w.up in
      record {
        local = b.chips.lapic_enable m.local_apic;
        chip = chip;
        has_chip = has_chip;
        has_local = has_local;
        valid = valid.valid;
      }
