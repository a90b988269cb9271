-- ===== src/Startup/Conditions.antt =====
-- The machines on which `kernel_main` of kernel/src/main.rs starts, and what it is to have started.
use rix_os.Base.{
  ℕ, ◌+◌, ◌*◌, ◌^◌, ◌<◌, ◌≤◌, ◌≡◌, true, Option, some, List, ◌∷◌, length, replicate, done, All, u64,
}
use rix_os.PhysMemory.{IsCanonical, physical_memory_offset}
use rix_os.Frames.{MemoryRegion}
use rix_os.Frames.Order.{IsAscending}
use rix_os.Heap as Heap
use rix_os.Heap.{Memory, InitResult, ok}
use rix_os.Heap.Steps.{Mapping}
use rix_os.Heap.Mapped.{IsHeap}
use rix_os.MemoryInit.Started.{IsLow, first_memory}
use rix_os.Logging.Records.{LogLaws}
use rix_os.Console as Console
use rix_os.Console.{NotoFontDisplay, kernel_message, str_len}
use rix_os.Console.Drawing.{Fits}
use rix_os.Segments.Stacks.{IsPlaced}
use rix_os.Segments.Loaded.{GdtLaws, IsLoaded}
use rix_os.Acpi as Acpi
use rix_os.Acpi.PowerOff as PowerOff
use rix_os.Apic.{apic}
use rix_os.Apic.Startup as ApicStartup
use rix_os.Interrupts.{idt}
use rix_os.Kernel.Init.{HasDemos}
use rix_os.Interrupts.Delivery.{IsUp}
use rix_os.Startup.{FrameBufferInfo, BootInfo, Platform, State}

-- What the boot loader hands over, and what the tables in memory say.
pub record Handover (Tables K : Type 0) : Type 0 where
  pub fb : FrameBufferInfo
  pub offset : ℕ
  pub regions : List MemoryRegion
  pub rsdp : ℕ
  pub tables : Tables
  pub local_apic_address : ℕ
  pub io_apic : ℕ
  pub io_apics : List ℕ
  pub local_apic : K

abbrev pub info_of : {Tables K : Type 0} → Handover Tables K → BootInfo
info_of m = record {
  framebuffer = some m.fb;
  rsdp_addr = some m.rsdp;
  memory = record { physical_memory_offset = some m.offset; memory_regions = m.regions };
}

-- A new console on the frame buffer.
abbrev pub blank : FrameBufferInfo → NotoFontDisplay
blank fb =
    Console.new fb.width fb.height fb.stride (replicate (u64 (fb.stride * fb.height)) 0xff408deb) 0
      24

module _ {T D S L P C E K H M Tables Fadt AmlName Namespace : Type 0}
    (b : Platform T D S L P C E K H M Tables Fadt AmlName Namespace) (log : L)
    (m : Handover Tables K) (virt : ℕ → ℕ) (W R : ℕ) where
  -- The console has room for the text that `kernel_main` draws, with glyphs `W` wide and `R + 1`
  -- high.
  pub record HasScreen : Type 0 where
    pub fits : Fits b.get_raster W R (blank m.fb)
    pub wide : 0 < m.fb.width
    pub room : 130 * W + R * m.fb.stride + 130 * m.fb.stride ≤ m.fb.stride * m.fb.height
    pub small : m.fb.stride * m.fb.height < 2 ^ 64

  -- The conditions under which the parts start.
  pub record CanBoot : Type 0 where
    pub logs : LogLaws b.log b.uart log
    pub gdt_laws : GdtLaws b.gdts
    pub placed : IsPlaced b.stack
    pub mapping : Mapping M b.map_to
    pub screen : HasScreen
    pub ascending : IsAscending 0 m.regions
    pub low : IsLow m.regions
    pub canonical : IsCanonical m.offset
    pub canonical_table : IsCanonical (m.offset + b.cr3)
    pub bounded : m.offset + b.cr3 < 2 ^ 64
    pub has_tables : b.acpi.from_rsdp m.rsdp ≡ some m.tables
    pub has_model :
        b.interrupt_model m.tables ≡ some (apic m.local_apic_address (m.io_apic ∷ m.io_apics))
    pub dsdt_mapped : PowerOff.IsMapped b.addresses b.acpi b.bytes (some m.offset) m.rsdp
    pub local_mapped :
        ApicStartup.IsMapped b.chips b.io b.addresses (some m.offset) virt m.local_apic_address
    pub all_mapped :
        All
          (ApicStartup.IsMapped b.chips b.io b.addresses (some m.offset) virt)
          (m.io_apic ∷ m.io_apics)
    pub builds : b.chips.lapic_build 32 51 0xff (virt m.local_apic_address) ≡ some m.local_apic

  -- What `heap_allocator::init` comes to on this memory.
  abbrev pub HeapEnds : CanBoot → InitResult → Memory M → Type 0
  HeapEnds h r heap =
      Heap.init b.frames b.map_to (
        first_memory b.addresses b.sums b.frames b.map_to b.new_tables b.cr3 h.mapping m.regions
          m.offset)
      ≡ done (r, heap)

  -- The memory has frames for the whole heap.
  abbrev pub HasHeap : CanBoot → Type 0
  HasHeap h = (heap : Memory M) × HeapEnds h ok heap

  -- The console after `draw_string` on the blank one: as many pixels, and the cursor `y` rows down.
  pub record IsConsole (y : ℕ) (console : Option NotoFontDisplay) : Type 0 where
    pub buffer : List ℕ
    pub shown : console ≡ some (record (blank m.fb) { draw_buffer = buffer; cursor_y = y })
    pub same_length : length buffer ≡ m.fb.stride * m.fb.height

  -- The kernel with interrupts on.
  pub record IsBooted (h : CanBoot) (s : State T S L P C K H M) : Type 0 where
    pub has_idt : s.idt ≡ some idt
    pub interrupts_on : s.interrupts_enabled ≡ true
    pub has_segments : IsLoaded b.gdts h.gdt_laws b.stack s.segments
    pub has_offset : physical_memory_offset s.statics.offset ≡ done m.offset
    pub heap : Memory M
    pub has_heap : s.memory ≡ some heap
    pub heap_mapped : IsHeap b.frames b.map_to h.mapping heap
    pub up :
        IsUp b.chips b.io b.addresses
          (some m.offset)
          b.get_raster
          (b.chips.lapic_enable m.local_apic)
          s.system
    pub has_demos : HasDemos s.system.kernel
    pub has_console : IsConsole 14 s.system.console
    pub has_acpi :
        Acpi.init b.addresses b.acpi b.bytes (some m.offset) m.rsdp Acpi.default
        ≡ done s.system.shutdown_info
