-- ===== src/Startup.antt =====
-- kernel/src/main.rs: `kernel_main`, which starts the parts of the kernel one after the other.
pub mod Boots
pub mod Conditions
pub mod Enter
pub mod Demos
pub mod Fails
pub mod NoApic
pub mod Greets
pub mod Interrupted
use Prim.Native.String.{String}
use rix_os.Base.{
  ℕ, zero, suc, ◌+◌, ◌*◌, Bool, true, false, Option, none, some, List, [], ◌∷◌, length, get_elem?,
  Exec, done, ◌>>=◌, unwrap, chars,
}
use rix_os.Io.{Ports}
use rix_os.Machine
use rix_os.PhysMemory.{Addresses}
use rix_os.Frames.{PhysFrames}
use rix_os.Heap.{MapTo, Memory}
use rix_os.MemoryInit as Mem
use rix_os.MemoryInit.{Statics, unset, VirtSums, NewTables, init_memory}
use rix_os.Logging as Logging
use rix_os.Logging.{Uart, LogCrate, Logs}
use rix_os.Console as Console
use rix_os.Console.{Raster, NotoFontDisplay, print}
use rix_os.Segments as Segments
use rix_os.Segments.{Gdts, SegmentRegisters}
use rix_os.Acpi as Acpi
use rix_os.Acpi.{AcpiCrates}
use rix_os.Apic as Apic
use rix_os.Apic.{Chips, InterruptModel}
use rix_os.Interrupts.{Entry, System, Outcome, idt}
use rix_os.Kernel as Kernel
use rix_os.Kernel.{Supply}
use rix_os.Pci.{enumerate_pci}
use rix_os.Logo.{Image, FrameBuffer, show_logo}
use rix_os.AllocTest.{alloc_test}

-- The sizes of the frame buffer.
pub record FrameBufferInfo : Type 0 where
  pub width : ℕ
  pub height : ℕ
  pub stride : ℕ

-- `BootInfo` of the crate bootloader_api.
pub record BootInfo : Type 0 where
  pub framebuffer : Option FrameBufferInfo
  pub rsdp_addr : Option ℕ
  pub memory : Mem.BootInfo

-- The crates, the hardware and the build that `kernel_main` runs with.
pub record Platform (T D S L P C E K H M Tables Fadt AmlName Namespace : Type 0) : Type 0 where
  pub log : LogCrate L
  pub uart : Uart P
  pub log_level : Option String
  pub get_raster : (char font_weight raster_height : ℕ) → Option Raster
  pub addresses : Addresses
  pub sums : VirtSums
  pub gdts : Gdts T D S
  -- The address of the interrupt stack.
  pub stack : ℕ
  pub frames : PhysFrames
  pub map_to : MapTo M
  pub new_tables : NewTables M
  pub cr3 : ℕ
  pub acpi : AcpiCrates Tables Fadt AmlName Namespace
  -- The bytes of memory.
  pub bytes : ℕ → ℕ
  pub interrupt_model : Tables → Option InterruptModel
  pub chips : Chips C E K
  pub io : Ports H
  -- What the two demo processes are created with.
  pub first : Supply
  pub second : Supply
  pub demo_task_a : ℕ
  pub demo_task_b : ℕ
  pub logo : Option Image

-- The statics and the processor. `memory` is nothing before the heap is set up.
pub record State (T S L P C K H M : Type 0) : Type 0 where
  pub log : Logs L P
  pub segments : SegmentRegisters T S
  pub idt : Option (List Entry)
  pub interrupts_enabled : Bool
  pub statics : Statics
  pub memory : Option (Memory M)
  pub system : System C K H

-- `BootloaderConfig` of the crate bootloader_api, as far as it is set.
pub record BootloaderConfig : Type 0 where
  pub kernel_stack_size : ℕ
  pub maps_physical_memory : Bool

abbrev pub bootloader_config : BootloaderConfig
bootloader_config = record { kernel_stack_size = 512 * 1024; maps_physical_memory = true }

-- The panic handler: it logs the message, of these pieces, and halts for good.
abbrev pub panic_handler :
    {L P : Type 0}
    → LogCrate L
    → Uart P
    → (info : List (List ℕ)) → Logs L P
    → Exec (Outcome (Logs L P))
panic_handler k u info s =
    Logging.emit k u Logging.error (chars "PANIC: " ∷ info) s >>= λ s. done (Outcome.halts s)

-- All of them before `kernel_main`.
abbrev pub off :
    {T S L P C K H M : Type 0}
    → L
    → SegmentRegisters T S
    → Machine.Memory
    → H
    → State T S L P C K H M
off log segments words devices = record {
  log = record { state = log; serial = none };
  segments = segments;
  idt = none;
  interrupts_enabled = false;
  statics = unset;
  memory = none;
  system = record {
    kernel = Kernel.boot words;
    apics = record { ioapics = none; local = none; devices = devices };
    shutdown_info = Acpi.default;
    console = none;
  };
}

-- `println!("...")`, with the end of line put to the text.
abbrev pub greetings : List String
greetings =
    "Hello from the x86_64 kernel!\n" ∷ "More debug info will be display in the serial console.\n"
    ∷ "Press Enter to poweroff.\n" ∷ []

-- The frame buffer, which the console and the logo both draw into.
abbrev pub words_of : List ℕ → FrameBuffer
words_of [] k = 0
words_of (w ∷ ws) zero = w
words_of (w ∷ ws) (suc k) = words_of ws k

-- `n` words from `i` on.
abbrev pub words_from : (n i : ℕ) → FrameBuffer → List ℕ
words_from zero i fb = []
words_from (suc n) i fb = fb i ∷ words_from n (suc i) fb

-- The first allocation: where the allocator has been given nothing, `alloc_error_handler` of
-- kernel/src/memory/heap_allocator.rs logs that and halts for good.
abbrev pub allocate : {A : Type 0} → (allocator : Option (ℕ × ℕ)) → (before after : A) → Outcome A
allocate none before after = Outcome.halts before
allocate (some heap) before after = Outcome.returns after

module _ {T D S L P C E K H M Tables Fadt AmlName Namespace : Type 0}
    (b : Platform T D S L P C E K H M Tables Fadt AmlName Namespace) where
  -- `kernel_main` up to `enable_interrupts`. Its log messages, and those of what it calls, are left
  -- out from here on. `acpi::init`, `apic::init` and `scheduler::init` allocate; with an empty heap
  -- the first that does so halts, unless one of the first two panics before.
  unfoldable pub start_up :
      BootInfo → State T S L P C K H M → Exec (Outcome (State T S L P C K H M))
  start_up info s = do
    log ← Logging.init b.log b.uart b.log_level s.log
    fb ← unwrap info.framebuffer
    console ← Console.init b.get_raster fb.width fb.height fb.stride
    segments ← Segments.init b.addresses b.sums b.stack b.gdts s.segments
    started ←
        init_memory b.addresses b.sums b.frames b.map_to b.new_tables b.cr3 info.memory s.statics
    acpi_rsdp ← unwrap info.rsdp_addr
    shutdown_info ←
        Acpi.init b.addresses b.acpi b.bytes started.0.offset acpi_rsdp s.system.shutdown_info
    apic_rsdp ← unwrap info.rsdp_addr
    apics ←
        Apic.init b.chips b.io b.addresses started.0.offset b.acpi.from_rsdp b.interrupt_model
          apic_rsdp s.system.apics
    let kernel = Kernel.init b.first b.second b.demo_task_a b.demo_task_b s.system.kernel
    let devices = (enumerate_pci b.io apics.devices).1
    let before = record s {
      log = log;
      segments = segments;
      idt = some idt;
      statics = started.0;
      memory = some started.1;
      system = record s.system { console = console };
    }
    done (
        allocate started.0.allocator before (record {
          log = log;
          segments = segments;
          idt = some idt;
          interrupts_enabled = true;
          statics = started.0;
          memory = some started.1;
          system = record {
            kernel = kernel;
            apics = record apics { devices = devices };
            shutdown_info = shutdown_info;
            console = console;
          };
        }))

  -- The `println!`s.
  unfoldable pub greet : List String → Option NotoFontDisplay → Exec (Option NotoFontDisplay)
  greet [] console = done console
  greet (s ∷ ss) console = do console ← print b.get_raster (chars s ∷ []) console; greet ss console

  -- The rest of `kernel_main`, up to its last loop.
  unfoldable pub run : State T S L P C K H M → Exec (State T S L P C K H M)
  run s = do
    console ← greet greetings s.system.console
    image ← unwrap b.logo
    c ← unwrap console
    drawn ← show_logo b.io image s.system.apics.devices (words_of c.draw_buffer)
    pool ← alloc_test
    let buffer = words_from (length c.draw_buffer) 0 drawn.1
    done (record s {
      system = record s.system {
        apics = record s.system.apics { devices = drawn.0 };
        console = some (record c { draw_buffer = buffer });
      };
    })
