-- ===== src/Startup/NoApic.antt =====
-- `kernel_main` of kernel/src/main.rs where the tables name another interrupt controller than APICs.
use rix_os.Base.{ℕ, ◌≡◌, ◌≢◌, refl, true, Option, none, some, List, done, panic}
use rix_os.Machine
use rix_os.Logging as Logging
use rix_os.Segments.{SegmentRegisters}
use rix_os.Segments.Loaded as Loaded
use rix_os.Acpi.PowerOff as PowerOff
use rix_os.Apic as Apic
use rix_os.Apic.{InterruptModel, unknown_model}
use rix_os.Interrupts.{InterruptIndex, spurious, returns}
use rix_os.Interrupts.Delivery.{interrupt, interrupt-panic}
use rix_os.Startup.{Platform, State, off, start_up}
use rix_os.Startup.Conditions.{Handover, info_of, CanBoot, HasHeap}
use rix_os.Startup.Boots.{offset_some, init-IsConsole, memory_ready}

module _ {T D S L P C E K H M Tables Fadt AmlName Namespace : Type 0}
    (b : Platform T D S L P C E K H M Tables Fadt AmlName Namespace) (log : L)
    (m : Handover Tables K) (virt : ℕ → ℕ) (W R : ℕ)
    (interrupt_model : Tables → Option InterruptModel) where
  -- The platform but for its interrupt controllers.
  abbrev pub other : Platform T D S L P C E K H M Tables Fadt AmlName Namespace
  other = record b { interrupt_model = interrupt_model }

  -- A system in which the next timer, keyboard or local APIC error interrupt panics.
  abbrev pub Panics : State T S L P C K H M → Type 0
  Panics s =
      (pieces : List (List ℕ)) (i : InterruptIndex)
      → i ≢ spurious
      → interrupt b.chips b.io b.addresses s.statics.offset b.get_raster pieces i s.system ≡ panic

  starts :
      (segments : SegmentRegisters T S) (words : Machine.Memory) (devices : H)
      (h : CanBoot b log m virt W R)
      → HasHeap b log m virt W R h
      → interrupt_model m.tables ≡ some unknown_model
      → (s : State T S L P C K H M) × (start_up other (info_of m) (off log segments words devices)
          ≡ done (returns s))
        × (s.interrupts_enabled ≡ true)
        × (s.system.apics.local ≡ none)
  unfolding start_up Apic.init Apic.init_model
  starts segments words devices h fits e_model =
      let (l, e_log) = h.logs.set_logger_lem in
      let (console, e_console, w_console) = init-IsConsole b log m virt W R h.screen in
      let (r, e_segments, w_segments) =
        Loaded.init-IsLoaded b.addresses b.sums b.stack b.gdts h.gdt_laws segments h.placed in
      let (st, heap, e_memory, w_offset, e_allocator, w_heap) =
        memory_ready b log m virt W R h fits in
      let (acpi, e_acpi, how) =
        PowerOff.shutdown_lem b.addresses b.acpi b.bytes (some m.offset) m.rsdp b.io devices
          h.dsdt_mapped in
      unfold Logging.init in
      rw
        (
          e_log,
          e_console,
          e_segments,
          e_memory,
          offset_some st.offset w_offset,
          e_acpi,
          h.has_tables,
          e_model,
          e_allocator,
        )
        (_, refl, refl, refl)

  -- Where the tables name another interrupt controller than APICs, and all else is as `kernel_main`
  -- wants it, frames for the whole heap included, it turns interrupts on with no local APIC set up:
  -- the next timer, keyboard or local APIC error interrupt panics.
  pub start_up-Panics :
      (segments : SegmentRegisters T S) (words : Machine.Memory) (devices : H)
      (h : CanBoot b log m virt W R)
      → HasHeap b log m virt W R h
      → interrupt_model m.tables ≡ some unknown_model
      → (s : State T S L P C K H M) × (start_up other (info_of m) (off log segments words devices)
          ≡ done (returns s))
        × (s.interrupts_enabled ≡ true)
        × Panics s
  start_up-Panics segments words devices h fits e_model =
      let (s, e, is_on, no_local) = starts segments words devices h fits e_model in
      (
        s,
        e,
        is_on,
        λ pieces i ne.
            interrupt-panic b.chips b.io b.addresses s.statics.offset b.get_raster pieces i s.system
              no_local ne,
      )
