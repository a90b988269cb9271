-- ===== src/Interrupts/Delivery.antt =====
-- The four hardware interrupts of kernel/src/interrupts.rs on the whole system.
use rix_os.Base.{
  ℕ, Option, none, some, panic, List, ◌==◌, if◌then◌else◌, Exec, done, ◌>>=◌, unwrap, ◌≡◌, ◌≢◌,
  refl, ◌⊎◌, inl, inr,
}
use rix_os.Io.{Ports}
use rix_os.PhysMemory.{Addresses, Offset}
use rix_os.Kernel
use rix_os.Kernel.{Kernel}
use rix_os.Kernel.Consistent.{IsConsistent}
use rix_os.Kernel.Tick.{tick_lem}
use rix_os.Acpi.{shutdown}
use rix_os.Apic.{Chips, LApic, end_interrupts}
use rix_os.Console.{Raster}
use rix_os.Interrupts.{
  InterruptIndex, timer, keyboard, lapic_error, spurious, as_u8, idt, lookup, System, Outcome,
  returns, send_eoi, on_timer, on_keyboard, handle,
}

module _ {C E L H : Type 0} (chips : Chips C E L) (io : Ports H) (x : Addresses) (o : Offset)
    (get_raster : (char font_weight raster_height : ℕ) → Option Raster) where
  -- A local APIC that has been built, and a consistent kernel.
  abbrev pub IsUp : L → System C L H → Type 0
  IsUp l s = ((a : LApic L) × (s.apics.local ≡ some a) × (a.lapic ≡ some l)) × IsConsistent s.kernel

  -- The entry of the table for an interrupt is run.
  abbrev pub interrupt :
      (pieces : List (List ℕ)) → InterruptIndex → System C L H → Exec (Outcome (System C L H))
  interrupt pieces i s = do
    e ← unwrap (lookup (as_u8 i) idt)
    handle chips io x o get_raster pieces e.handler s

  -- The local APIC after the interrupt: told of its end once, or not at all if it was spurious.
  abbrev pub acknowledged : InterruptIndex → L → L
  acknowledged timer l = chips.end_of_interrupt l
  acknowledged keyboard l = chips.end_of_interrupt l
  acknowledged lapic_error l = chips.end_of_interrupt l
  acknowledged spurious l = l

  -- The devices after the interrupt: the keyboard's reads a scan code, and Enter, 28, powers off.
  abbrev pub devices_after : InterruptIndex → System C L H → H
  devices_after keyboard s =
      let read = io.in8 0x60 s.apics.devices in
      if read.0 == 28 then shutdown io s.shutdown_info read.1 else read.1
  devices_after timer s = s.apics.devices
  devices_after lapic_error s = s.apics.devices
  devices_after spurious s = s.apics.devices

  -- In a system with a built local APIC and a consistent kernel, the table has a handler for each of
  -- the four interrupts. It does not panic and returns; the local APIC got the end of interrupt
  -- once, or not at all if it was spurious; only the timer's changes the kernel, by a scheduler
  -- tick, and only the keyboard's the devices; and the system is again such a system.
  pub interrupt_lem :
      (pieces : List (List ℕ)) (i : InterruptIndex) (l : L) (s : System C L H)
      → IsUp l s
      → (s' : System C L H) × (interrupt pieces i s ≡ done (returns s'))
        × IsUp (acknowledged i l) s'
        × (s'.apics.devices ≡ devices_after i s)
        × (((i ≡ timer) × (Kernel.tick s.kernel ≡ done s'.kernel))
            ⊎ ((i ≢ timer) × (s'.kernel ≡ s.kernel)))
  unfolding handle lookup send_eoi on_timer on_keyboard end_interrupts
  interrupt_lem pieces timer l s up =
      let (k, e, e', c) = tick_lem s.kernel up.1 in
      rw (up.0.1, up.0.2, e) (_, refl, ((_, refl, refl), c), refl, inl (refl, refl))
  interrupt_lem pieces keyboard l s up =
      rw (up.0.1, up.0.2) (_, refl, ((_, refl, refl), up.1), refl, inr ((λ e. cc), refl))
  interrupt_lem pieces lapic_error l s up =
      rw (up.0.1, up.0.2) (_, refl, ((_, refl, refl), up.1), refl, inr ((λ e. cc), refl))
  interrupt_lem pieces spurious l s up = (s, refl, up, refl, inr ((λ e. cc), refl))

  -- No interrupt changes what the power-off has found.
  pub interrupt_keeps :
      (pieces : List (List ℕ)) (i : InterruptIndex) (l : L) (s : System C L H)
      → IsUp l s
      → (s' : System C L H) × (interrupt pieces i s ≡ done (returns s'))
        × (s'.shutdown_info ≡ s.shutdown_info)
  unfolding handle lookup send_eoi on_timer on_keyboard end_interrupts
  interrupt_keeps pieces timer l s up =
      let (k, e, e', c) = tick_lem s.kernel up.1 in rw (up.0.1, up.0.2, e) (_, refl, refl)
  interrupt_keeps pieces keyboard l s up = rw (up.0.1, up.0.2) (_, refl, refl)
  interrupt_keeps pieces lapic_error l s up = rw (up.0.1, up.0.2) (_, refl, refl)
  interrupt_keeps pieces spurious l s up = (s, refl, refl)

  -- Without a local APIC there is nothing to tell of the end of an interrupt.
  pub interrupt-panic :
      (pieces : List (List ℕ)) (i : InterruptIndex) (s : System C L H)
      → s.apics.local ≡ none
      → i ≢ spurious
      → interrupt pieces i s ≡ panic
  unfolding handle lookup send_eoi on_timer on_keyboard
  interrupt-panic pieces timer s e ne = rw e refl
  interrupt-panic pieces keyboard s e ne = rw e refl
  interrupt-panic pieces lapic_error s e ne = rw e refl
  interrupt-panic pieces spurious s e ne = absurd (ne refl)
