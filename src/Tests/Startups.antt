-- ===== src/Tests/Startups.antt =====
-- `kernel_main` on a small machine.
use rix_os.Base.{◌+◌, ◌==◌, if◌then◌else◌, ℕ, ◌^◌, ◌≡◌, refl, inl, some, List, [], ◌∷◌, arith, done}
use rix_os.Io.{Ports}
use rix_os.Tests.Hardware.{Registers, io, addresses, phys_frames}
use rix_os.Tests.PageTables.{Tables, map_to, mapping, virt_sums, no_tables}
use rix_os.Tests.LargeMemory.{with_free, with_free-IsAscending, with_free-ok}
use rix_os.Tests.Devices.{font, glyph_small, glyph, crates, dsdt_mapped, chips, virt}
use rix_os.Tests.Processes.{supply}
use rix_os.Tests.Descriptors.{gdts, gdt_laws, no_segments}
use rix_os.Tests.Logs.{uart, LogState, log_crate, log_laws, no_logger}
use rix_os.PhysMemory.{physical_to_virtual}
use rix_os.Apic
use rix_os.Apic.{apic, unknown_model}
use rix_os.Console as Console
use rix_os.Console.Drawing.{Fits}
use rix_os.Logo.{Image}
use rix_os.Startup.{Platform, State, off, start_up}
use rix_os.Startup.Conditions.{Handover, HasHeap, info_of, blank, CanBoot, IsBooted}
use rix_os.Interrupts.{returns}
use rix_os.Startup.Boots.{start_up_lem}

-- A red pixel and one without colour.
abbrev logo : Image
logo = record {
  width = 2;
  height = 1;
  pixels =
      record { red = 255; green = 0; blue = 0; alpha = 255 }
      ∷ record { red = 9; green = 9; blue = 9; alpha = 0 }
      ∷ [];
}

-- The devices, with a keyboard whose Enter key is held down.
abbrev pub keyed : Ports Registers
keyed = record io { in8 = λ port h. if port == 0x60 then (28, h) else io.in8 port h }

abbrev pub platform :
    Platform
      (List ℕ)
      ℕ
      ℕ
      LogState
      (List ℕ)
      ℕ
      ℕ
      ℕ
      Registers
      Tables
      (Unit {0})
      (Unit {0})
      (Unit {0})
      (Unit {0})
platform = record {
  log = log_crate;
  uart = uart;
  log_level = some "INFO";
  get_raster = font;
  addresses = addresses;
  sums = virt_sums;
  gdts = gdts;
  stack = 0x200000;
  frames = phys_frames;
  map_to = map_to;
  new_tables = no_tables;
  cr3 = 0x1000;
  acpi = crates;
  bytes = λ a. 0;
  interrupt_model = λ tables. some (apic 0xfee00000 (0xfec00000 ∷ []));
  chips = chips;
  io = keyed;
  first = supply 0x10000;
  second = supply 0x20000;
  demo_task_a = 0x55;
  demo_task_b = 0x66;
  logo = some logo;
}

-- A screen of 400 by 200 pixels.
abbrev pub handover : Handover (Unit {0}) ℕ
handover = record {
  fb = record { width = 400; height = 200; stride = 400 };
  offset = 2 ^ 46;
  regions = with_free 8192;
  rsdp = 0xe0000;
  tables = tt;
  local_apic_address = 0xfee00000;
  io_apic = 0xfec00000;
  io_apics = [];
  local_apic = 0;
}

blank-Fits : Fits font 2 1 (blank handover.fb)
unfolding Console.new
blank-Fits = ((λ ch raster e. glyph_small raster e), (glyph, refl))

pub platform-CanBoot : CanBoot platform no_logger handover virt 2 1
unfolding Apic.mapped physical_to_virtual
platform-CanBoot = record {
  logs = log_laws;
  gdt_laws = gdt_laws;
  placed = (inl (omega arith), inl (omega arith), omega arith);
  mapping = mapping;
  screen = record {
    fits = blank-Fits;
    wide = omega arith;
    room = omega arith;
    small = omega arith;
  };
  ascending = with_free-IsAscending 8192 (omega arith);
  low = (omega arith, (omega arith, tt));
  canonical = inl (omega arith);
  canonical_table = inl (omega arith);
  bounded = omega arith;
  has_tables = refl;
  has_model = refl;
  dsdt_mapped = dsdt_mapped;
  local_mapped = refl;
  all_mapped = (refl, tt);
  builds = refl;
}

pub platform-HasHeap : HasHeap platform no_logger handover virt 2 1 platform-CanBoot
platform-HasHeap = with_free-ok 8192 (omega arith) (omega arith) (2 ^ 46 + 0x1000) (2 ^ 46)

abbrev pub MachineState : Type 0
MachineState = State (List ℕ) ℕ LogState (List ℕ) ℕ ℕ Registers Tables

abbrev pub devices : Registers
devices = (0, λ j. 0)

start_up_example :
    (s : MachineState) × (start_up platform
        (info_of handover)
        (off no_logger no_segments (λ a. 0) devices)
      ≡ done (returns s))
    × IsBooted platform no_logger handover virt 2 1 platform-CanBoot s
start_up_example =
    start_up_lem platform no_logger handover virt 2 1 no_segments (λ a. 0) devices platform-CanBoot
      platform-HasHeap
