-- ===== src/Startup/Fails.antt =====
-- What `kernel_main` of kernel/src/main.rs and the parts it sets up cannot do without.
use rix_os.Base.{
  ℕ, ◌≡◌, sym, ap, ◌∙◌, ◌⊎◌, inl, inr, none, some, done, panic, >>=-eq-done, unwrap-eq-done,
  Exec-cases, unwrap, some≢none, some_eq,
}
use rix_os.Segments as Segments
use rix_os.Segments.{SegmentRegisters}
use rix_os.Logging as Logging
use rix_os.Console as Console
use rix_os.MemoryInit.{init_memory}
use rix_os.Acpi as Acpi
use rix_os.Apic as Apic
use rix_os.Apic.{InterruptModel, Apics, unknown_model, init_model}
use rix_os.Interrupts.{Outcome}
use rix_os.Startup.{BootInfo, Platform, State, start_up, FrameBufferInfo}

module _ {T D S L P C E K H M Tables Fadt AmlName Namespace : Type 0}
    (b : Platform T D S L P C E K H M Tables Fadt AmlName Namespace) where
  -- What a start that did not panic has found.
  record Found (info : BootInfo) : Type 0 where
    screen : (fb : FrameBufferInfo) × (info.framebuffer ≡ some fb)
    offset : (o : ℕ) × (info.memory.physical_memory_offset ≡ some o)
    rsdp : ℕ
    has_rsdp : info.rsdp_addr ≡ some rsdp
    tables : Tables
    has_tables : b.acpi.from_rsdp rsdp ≡ some tables

  start_up-Found :
      (info : BootInfo) (s : State T S L P C K H M) (o : Outcome (State T S L P C K H M))
      → start_up b info s ≡ done o
      → Found info
  unfolding start_up init_memory Apic.init
  start_up-Found info s o e =
      let (log, e_log, e) = >>=-eq-done (Logging.init b.log b.uart b.log_level s.log) _ e in
      let (fb, e_fb, e) = >>=-eq-done (unwrap info.framebuffer) _ e in
      let (console, e_console, e) =
        >>=-eq-done (Console.init b.get_raster fb.width fb.height fb.stride) _ e in
      let (segments, e_segments, e) =
        >>=-eq-done (Segments.init b.addresses b.sums b.stack b.gdts s.segments) _ e in
      let (started, e_memory, e) =
        >>=-eq-done
          (init_memory b.addresses b.sums b.frames b.map_to b.new_tables b.cr3 info.memory
            s.statics)
          _ e in
      let (offset, e_offset, rest) =
        >>=-eq-done (unwrap info.memory.physical_memory_offset) _ e_memory in
      let (acpi_rsdp, e_rsdp, e) = >>=-eq-done (unwrap info.rsdp_addr) _ e in
      let (acpi, e_acpi, e) =
        >>=-eq-done
          (Acpi.init b.addresses b.acpi b.bytes started.0.offset acpi_rsdp s.system.shutdown_info) _
          e in
      let (rsdp, e_rsdp, e) = >>=-eq-done (unwrap info.rsdp_addr) _ e in
      let (apics, e_apics, e) =
        >>=-eq-done
          (Apic.init b.chips b.io b.addresses started.0.offset b.acpi.from_rsdp b.interrupt_model
            rsdp s.system.apics)
          _ e in
      let (tables, e_tables, e_apics) = >>=-eq-done (unwrap (b.acpi.from_rsdp rsdp)) _ e_apics in
      record {
        screen = (fb, unwrap-eq-done info.framebuffer e_fb);
        offset = (offset, unwrap-eq-done info.memory.physical_memory_offset e_offset);
        rsdp = rsdp;
        has_rsdp = unwrap-eq-done info.rsdp_addr e_rsdp;
        tables = tables;
        has_tables = unwrap-eq-done (b.acpi.from_rsdp rsdp) e_tables;
      }

  -- The boot loader has left out the frame buffer, the offset of physical memory or the RSDP, or
  -- there are no tables at the RSDP.
  abbrev pub Lacks : BootInfo → Type 0
  Lacks info =
      (info.framebuffer ≡ none)
      ⊎ ((info.memory.physical_memory_offset ≡ none)
          ⊎ ((info.rsdp_addr ≡ none)
              ⊎ ((rsdp : ℕ) × (info.rsdp_addr ≡ some rsdp) × (b.acpi.from_rsdp rsdp ≡ none))))

  Found-not_Lacks : (info : BootInfo) → Found info → ¬ Lacks info
  Found-not_Lacks info f (inl e) = some≢none (sym f.screen.1 ∙ e)
  Found-not_Lacks info f (inr (inl e)) = some≢none (sym f.offset.1 ∙ e)
  Found-not_Lacks info f (inr (inr (inl e))) = some≢none (sym f.has_rsdp ∙ e)
  Found-not_Lacks info f (inr (inr (inr (rsdp, e, none_there)))) =
      let same : rsdp ≡ f.rsdp = some_eq (sym e ∙ f.has_rsdp) in
      some≢none (sym f.has_tables ∙ ap b.acpi.from_rsdp (sym same) ∙ none_there)

  -- Without a frame buffer, an offset of physical memory, an RSDP or tables there, `kernel_main`
  -- panics before it turns interrupts on, in whatever state it starts.
  pub start_up-panic :
      (info : BootInfo) (s : State T S L P C K H M) → Lacks info → start_up b info s ≡ panic
  start_up-panic info s lacks = elim (Exec-cases (start_up b info s)) [
    | inl e ↦ e
    | inr (s', e) ↦ absurd (Found-not_Lacks info (start_up-Found info s s' e) lacks)
  ]
