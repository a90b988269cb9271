-- ===== src/Tests/Devices.antt =====
-- The console, the power-off, the interrupt controllers and the interrupts.
use rix_os.Base.{
  ℕ, ◌+◌, ◌/◌, ◌%◌, ◌^◌, ◌≤◌, ◌≡◌, ◌≢◌, ◌⊎◌, refl, arith, some, none, [], ◌∷◌, ◌++◌, done, panic,
  List, get_elem?, Option, u16, u64, length, All, some_eq, subst, bit_or,
}
use rix_os.Tests.Hardware.{Registers, io, addresses}
use rix_os.Tests.Processes.{started, started-IsConsistent}
use rix_os.PhysMemory.{physical_to_virtual}
use rix_os.Console.{Raster, NotoFontDisplay, draw_string, write_fmt, str_len, len_utf8}
use rix_os.Console.Drawing.{Fits, draw_string_lem}
use rix_os.Console.Panics.{HasPixels, write_fmt-panic}
use rix_os.Acpi
use rix_os.Acpi.{
  AcpiCrates, AcpiShutdown, Dsdt, aml_package, integer, shutdown, set_shutdown, default,
}
use rix_os.Acpi.PowerOff.{HasS5, shutdown_lem, sleep_type-zero}
use rix_os.Apic.{Chips, apic, init_model, init_pics, mapped, keyboard_entry}
use rix_os.Apic.Startup.{init_model_lem}
use rix_os.Kernel
use rix_os.Interrupts.{System, timer, keyboard, returns}
use rix_os.Interrupts.Delivery.{IsUp, interrupt, interrupt_lem, devices_after}

-- Every glyph is two by two pixels.
abbrev pub glyph : Raster
glyph = record { rows = (1 ∷ 2 ∷ []) ∷ (3 ∷ 4 ∷ []) ∷ []; width = 2 }

abbrev pub font : (char font_weight raster_height : ℕ) → Option Raster
font char font_weight raster_height = some glyph

-- A screen of 8 by 3 pixels.
abbrev screen : NotoFontDisplay
screen = record {
  width = 8;
  height = 3;
  stride = 8;
  draw_buffer =
      0 ∷ 0 ∷ 0 ∷ 0 ∷ 0 ∷ 0 ∷ 0 ∷ 0 ∷ 0 ∷ 0 ∷ 0 ∷ 0 ∷ 0 ∷ 0 ∷ 0 ∷ 0 ∷ 0 ∷ 0 ∷ 0 ∷ 0 ∷ 0 ∷ 0 ∷ 0 ∷ 0
      ∷ [];
  font_weight = 0;
  raster_height = 24;
  cursor_x = 0;
  cursor_y = 0;
}

pub glyph_small :
    (raster : Raster)
    → some glyph ≡ some raster
    → (raster.width ≤ 2) × (length raster.rows ≤ 2) × All (λ row. length row ≤ 2) raster.rows
glyph_small raster e =
    subst (λ r. (r.width ≤ 2) × (length r.rows ≤ 2) × All (λ row. length row ≤ 2) r.rows)
      (some_eq e) (omega arith, omega arith, (omega arith, (omega arith, tt)))

font-Fits : Fits font 2 1 screen
font-Fits = ((λ ch raster e. glyph_small raster e), (glyph, refl))

-- "ab", of two bytes: 12 pixels are touched at most, and the cursor is two rows down.
draw_string_example :
    (buffer : List ℕ) × (draw_string font (0x61 ∷ 0x62 ∷ []) screen
      ≡ done
          (record screen { draw_buffer = buffer; cursor_y = u64 (0 + str_len (0x61 ∷ 0x62 ∷ [])) }))
    × (length buffer ≡ 24)
    × ((j : ℕ) → 12 ≤ j → get_elem? buffer j ≡ get_elem? screen.draw_buffer j)
draw_string_example =
    draw_string_lem font 2 1 (0x61 ∷ 0x62 ∷ []) 12 screen font-Fits (omega arith) (omega arith)
      (omega arith) (omega arith)

glyph_pixels :
    (raster : Raster)
    → some glyph ≡ some raster
    → (i : ℕ) × (row : List ℕ) × (rows : List (List ℕ)) × (raster.rows ≡ (i ∷ row) ∷ rows)
glyph_pixels raster e =
    subst (λ r. (i : ℕ) × (row : List ℕ) × (rows : List (List ℕ)) × (r.rows ≡ (i ∷ row) ∷ rows))
      (some_eq e) (1, 2 ∷ [], (3 ∷ 4 ∷ []) ∷ [], refl)

font-HasPixels : HasPixels font
font-HasPixels ch w h raster e = glyph_pixels raster e

-- Three bytes fill the three rows; a fourth panics.
write_fmt-panic_example :
    write_fmt font (((0x61 ∷ 0x62 ∷ []) ∷ (0x63 ∷ []) ∷ []) ++ (0x64 ∷ []) ∷ []) screen ≡ panic
unfolding str_len len_utf8
write_fmt-panic_example =
    write_fmt-panic font font-HasPixels 0x64 [] ((0x61 ∷ 0x62 ∷ []) ∷ (0x63 ∷ []) ∷ []) 3 screen
      refl (omega arith) refl (omega arith) (omega arith) (omega arith)

-- Tables with a PM1a control block at port 0x604 and the sleep type 5.
abbrev pub crates : AcpiCrates (Unit {0}) (Unit {0}) (Unit {0}) (Unit {0})
crates = record {
  from_rsdp = λ rsdp. some tt;
  dsdt = λ tables. some (record { phys_address = 0x1000; length = 40 });
  find_fadt = λ tables. some tt;
  pm1a_control_block = λ fadt. some 0x604;
  parse_table = λ bytes. some tt;
  from_str_s5 = some tt;
  get_by_path = λ aml name. some (aml_package (integer 5 ∷ []));
}

pub dsdt_mapped :
    (tables : Unit {0}) (d : Dsdt)
    → some (record { phys_address = 0x1000; length = 40 }) ≡ some d
    → (addr : ℕ) × (ptr : ℕ) × (addresses.phys_new d.phys_address ≡ done addr)
      × (physical_to_virtual addresses (some (2 ^ 46)) addr ≡ done ptr)
      × (36 ≤ d.length)
unfolding physical_to_virtual
dsdt_mapped tables d e =
    subst
      (λ d.
        (addr : ℕ) × (ptr : ℕ) × (addresses.phys_new d.phys_address ≡ done addr)
        × (physical_to_virtual addresses (some (2 ^ 46)) addr ≡ done ptr)
        × (36 ≤ d.length))
      (some_eq e) (0x1000, 2 ^ 46 + 0x1000, refl, refl, omega arith)

shutdown_example :
    (s : AcpiShutdown) × (Acpi.init addresses crates (λ a. 0) (some (2 ^ 46)) 0xe0000 default
      ≡ done s)
    × (((pm1a : ℕ) × (v : ℕ) × HasS5 addresses crates (λ a. 0) (some (2 ^ 46)) 0xe0000 pm1a v
          × (shutdown io s (0, λ a. 0) ≡ io.out16 (u16 pm1a) (bit_or (u16 v) 0x2000) (0, λ a. 0)))
        ⊎ (((pm1a v : ℕ) → ¬ HasS5 addresses crates (λ a. 0) (some (2 ^ 46)) 0xe0000 pm1a v)
            × (shutdown io s (0, λ a. 0) ≡ io.out32 0xf4 0x10 (0, λ a. 0))))
shutdown_example =
    shutdown_lem addresses crates (λ a. 0) (some (2 ^ 46)) 0xe0000 io (0, λ a. 0) dsdt_mapped

sleep_type-zero_example :
    (w : ℕ) × (shutdown io (set_shutdown (some (0x604, 5)) default) (0, λ a. 0)
      ≡ io.out16 (u16 0x604) w (0, λ a. 0))
    × (w / 2 ^ 10 % 2 ^ 3 ≡ 0)
    × (w / 2 ^ 13 % 2 ≡ 1)
    × (w % 2 ^ 10 ≡ 5)
sleep_type-zero_example = sleep_type-zero io (0, λ a. 0) 0x604 5 (omega arith)

-- Chips that count: an I/O APIC is the number of its settings, a local APIC that of its commands.
abbrev pub chips : Chips ℕ ℕ ℕ
chips = record {
  ioapic_new = λ addr. 0;
  ioapic_init = λ offset c. c + 1;
  set_table_entry = λ irq e c. c + e;
  enable_irq = λ irq c. c + 1;
  entry_default = 0;
  set_mode_fixed = λ e. e + 1;
  set_vector = λ v e. e + 1;
  set_dest = λ d e. e + 1;
  lapic_build = λ t e s base. some 0;
  lapic_enable = λ l. l + 1;
  end_of_interrupt = λ l. l + 1;
}

abbrev pub virt : ℕ → ℕ
virt addr = addr + 2 ^ 46

init_model_example :
    init_model chips io addresses
      (some (2 ^ 46))
      (apic 0xfee00000 (0xfec00000 ∷ []))
      (record { ioapics = none; local = none; devices = (0, λ a. 0) })
    ≡ done (record {
      ioapics = some (
          record { addr = virt 0xfec00000; ioapic = some 5 }
          ∷ record { addr = virt 0xfec00000; ioapic = some 5 }
          ∷ []);
      local = some (record { addr = virt 0xfee00000; lapic = some 1 });
      devices = init_pics chips io addresses (some (2 ^ 46)) (0, λ a. 0);
    })
unfolding mapped physical_to_virtual keyboard_entry
init_model_example =
    init_model_lem chips io addresses (some (2 ^ 46)) virt 0xfee00000 0xfec00000 [] (0, λ a. 0) 0
      refl (refl, tt) refl

-- The running system, with an Enter key waiting.
abbrev pub system : System ℕ ℕ Registers
system = record {
  kernel = started;
  apics = record {
    ioapics = some [];
    local = some (record { addr = virt 0xfee00000; lapic = some 1 });
    devices = (0, λ a. 28);
  };
  shutdown_info = default;
  console = none;
}

interrupt_example :
    (s : System ℕ ℕ Registers) × (interrupt chips io addresses
        (some (2 ^ 46))
        font
        []
        keyboard
        system
      ≡ done (returns s))
    × IsUp chips io addresses (some (2 ^ 46)) font 2 s
    × (s.apics.devices ≡ devices_after chips io addresses (some (2 ^ 46)) font keyboard system)
    × (((keyboard ≡ timer) × (Kernel.tick started ≡ done s.kernel))
        ⊎ ((keyboard ≢ timer) × (s.kernel ≡ started)))
interrupt_example =
    interrupt_lem chips io addresses (some (2 ^ 46)) font [] keyboard 1 system
      ((_, refl, refl), started-IsConsistent)
