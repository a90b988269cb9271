-- ===== src/Startup/Boots.antt =====
-- `kernel_main` of kernel/src/main.rs up to the point where interrupts are on.
use rix_os.Base.{
  ℕ, ◌*◌, ◌≡◌, refl, ap, sym, inl, inr, ◌∙◌, true, Option, none, some, ◌∷◌, arith, length, map,
  length-replicate, done, done_eq, u64,
}
use rix_os.Machine
use rix_os.PhysMemory.{physical_memory_offset}
use rix_os.Heap.{Memory}
use rix_os.MemoryInit.{Statics}
use rix_os.Pci.{enumerate_pci}
use rix_os.MemoryInit.Started.{init_memory_lem}
use rix_os.Logging as Logging
use rix_os.Console as Console
use rix_os.Console.{NotoFontDisplay, kernel_message, str_len}
use rix_os.Console.Drawing.{draw_string_lem}
use rix_os.Segments.{SegmentRegisters}
use rix_os.Segments.Loaded as Loaded
use rix_os.Segments.Loaded.{GdtLaws, IsLoaded}
use rix_os.Acpi.{AcpiShutdown}
use rix_os.Acpi.PowerOff as PowerOff
use rix_os.Apic as Apic
use rix_os.Apic.{InterruptModel, apic}
use rix_os.Apic.Startup as ApicStartup
use rix_os.Kernel as Kernel
use rix_os.Kernel.Init.{init-IsConsistent, init-HasDemos}
use rix_os.MemoryInit.{init_memory, unset}
use rix_os.Heap.{heap_start}
use rix_os.Heap.Mapped.{IsHeap}
use rix_os.Interrupts.{idt, returns}
use rix_os.Startup.{Platform, State, off, start_up}
use rix_os.Startup.Conditions.{
  Handover, info_of, blank, HasScreen, CanBoot, HasHeap, IsConsole, IsBooted,
}

pub offset_some : (o : Option ℕ) {a : ℕ} → physical_memory_offset o ≡ done a → o ≡ some a
unfolding physical_memory_offset
offset_some none e = cc
offset_some (some a) e = ap some (done_eq e)

module _ {T D S L P C E K H M Tables Fadt AmlName Namespace : Type 0}
    (b : Platform T D S L P C E K H M Tables Fadt AmlName Namespace) (log : L)
    (m : Handover Tables K) (virt : ℕ → ℕ) (W R : ℕ) where
  length-blank :
      HasScreen b log m virt W R → length (blank m.fb).draw_buffer ≡ m.fb.stride * m.fb.height
  unfolding Console.new
  length-blank h =
      length-replicate (u64 (m.fb.stride * m.fb.height)) 0xff408deb ∙ omega (arith, h.small)

  pub init-IsConsole :
      HasScreen b log m virt W R
      → (console : Option NotoFontDisplay) × (Console.init b.get_raster m.fb.width m.fb.height
            m.fb.stride
          ≡ done console)
        × IsConsole b log m virt W R 14 console
  unfolding Console.init Console.new str_len Console.len_utf8
  init-IsConsole h =
      let (buffer, e, l, keeps) =
        draw_string_lem b.get_raster W R (kernel_message b.get_raster) (m.fb.stride * m.fb.height)
          (blank m.fb) h.fits h.wide (omega (arith, h.room)) (omega (arith, length-blank h))
          h.small in
      (_, rw e refl, record { buffer = buffer; shown = refl; same_length = l ∙ length-blank h })

  -- The interrupt controllers, from the tables on.
  apic_starts :
      (devices : H)
      → CanBoot b log m virt W R
      → Apic.init b.chips b.io b.addresses
          (some m.offset)
          b.acpi.from_rsdp
          b.interrupt_model
          m.rsdp
          (record { ioapics = none; local = none; devices = devices })
        ≡ done (record {
          ioapics = some (
              map
                (ApicStartup.started b.chips b.io b.addresses (some m.offset) virt)
                (m.io_apic ∷ m.io_apic ∷ m.io_apics));
          local = some (record {
            addr = virt m.local_apic_address;
            lapic = some (b.chips.lapic_enable m.local_apic);
          });
          devices = Apic.init_pics b.chips b.io b.addresses (some m.offset) devices;
        })
  unfolding Apic.init
  apic_starts devices h =
      rw (h.has_tables, h.has_model)
        (ApicStartup.init_model_lem b.chips b.io b.addresses (some m.offset) virt
          m.local_apic_address m.io_apic m.io_apics devices m.local_apic h.local_mapped h.all_mapped
          h.builds)

  -- The state that `start_up` leads to.
  abbrev booted :
      (log' : L)
      → SegmentRegisters T S
      → Statics
      → Memory M
      → AcpiShutdown
      → Option NotoFontDisplay
      → Machine.Memory
      → H
      → State T S L P C K H M
  booted log' segments statics heap shutdown_info console words devices =
      let o = some m.offset in
      let devices = Apic.init_pics b.chips b.io b.addresses o devices in
      record {
        log = record {
          state = b.log.set_max_level (Logging.max_level b.log_level) log';
          serial = none;
        };
        segments = segments;
        idt = some idt;
        interrupts_enabled = true;
        statics = statics;
        memory = some heap;
        system = record {
          kernel = Kernel.init b.first b.second b.demo_task_a b.demo_task_b (Kernel.boot words);
          apics = record {
            ioapics = some (
                map (ApicStartup.started b.chips b.io b.addresses o virt)
                  (m.io_apic ∷ m.io_apic ∷ m.io_apics));
            local = some (record {
              addr = virt m.local_apic_address;
              lapic = some (b.chips.lapic_enable m.local_apic);
            });
            devices = (enumerate_pci b.io devices).1;
          };
          shutdown_info = shutdown_info;
          console = console;
        };
      }

  -- With frames for the whole heap, the memory's `init` gives the allocator the heap.
  pub memory_ready :
      (h : CanBoot b log m virt W R)
      → HasHeap b log m virt W R h
      → (st : Statics) × (heap : Memory M) × (init_memory b.addresses b.sums b.frames b.map_to
            b.new_tables b.cr3
            (info_of m).memory
            unset
          ≡ done (st, heap))
        × (physical_memory_offset st.offset ≡ done m.offset)
        × (st.allocator ≡ some (heap_start, 8192 * 4096))
        × IsHeap b.frames b.map_to h.mapping heap
  memory_ready h (heap, fits) =
      let (st, heap', r, e, offset, same, e_heap, how) =
        init_memory_lem b.addresses b.sums b.frames b.map_to b.new_tables b.cr3 h.mapping m.regions
          m.offset h.ascending h.low h.canonical h.canonical_table h.bounded in
      elim how [
        | inl (is_ok, w) ↦ (st, heap', e, offset, same ∙ w.0, w)
        | inr (failed, w) ↦ absurd (failed (ap (λ p. p.0) (done_eq (sym e_heap ∙ fits))))
      ]

  -- From the state before `kernel_main`, on a machine that meets the conditions and has frames for
  -- the whole heap: `kernel_main` gets to the point where it turns interrupts on, without a panic
  -- or a halt. By then the interrupt table, the segments, the mapping of physical memory and the
  -- console are set up, all of the heap is mapped and given to the allocator, the local APIC is
  -- enabled, the kernel is consistent, and the two demo processes are Ready.
  pub start_up_lem :
      (segments : SegmentRegisters T S) (words : Machine.Memory) (devices : H)
      (h : CanBoot b log m virt W R)
      → HasHeap b log m virt W R h
      → (s : State T S L P C K H M) × (start_up b (info_of m) (off log segments words devices)
          ≡ done (returns s))
        × IsBooted b log m virt W R h s
  unfolding start_up
  start_up_lem segments words devices h fits =
      let (l, e_log) = h.logs.set_logger_lem in
      let (console, e_console, w_console) = init-IsConsole h.screen in
      let (r, e_segments, w_segments) =
        Loaded.init-IsLoaded b.addresses b.sums b.stack b.gdts h.gdt_laws segments h.placed in
      let (st, heap, e_memory, w_offset, e_allocator, w_heap) = memory_ready h fits in
      let (acpi, e_acpi, how) =
        PowerOff.shutdown_lem b.addresses b.acpi b.bytes (some m.offset) m.rsdp b.io devices
          h.dsdt_mapped in
      (
        booted l r st heap acpi console words devices,
        unfold Logging.init in
            rw
              (
                e_log,
                e_console,
                e_segments,
                e_memory,
                offset_some st.offset w_offset,
                e_acpi,
                apic_starts devices h,
                e_allocator,
              )
              refl,
        record {
          has_idt = refl;
          interrupts_on = refl;
          has_segments = w_segments;
          has_offset = w_offset;
          heap = heap;
          has_heap = refl;
          heap_mapped = w_heap;
          up = (
            (_, refl, refl),
            init-IsConsistent b.first b.second b.demo_task_a b.demo_task_b words,
          );
          has_demos = init-HasDemos b.first b.second b.demo_task_a b.demo_task_b words;
          has_console = w_console;
          has_acpi = e_acpi;
        },
      )
