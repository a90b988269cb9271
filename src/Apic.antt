-- ===== src/Apic.antt =====
-- kernel/src/apic.rs: the interrupt controllers.
pub mod Startup
use rix_os.Base.{
  ℕ, ◌+◌, ◌^◌, Bool, true, false, Option, none, some, List, [], ◌∷◌, ◌++◌, Exec, done, ◌>>=◌,
  unwrap,
}
use rix_os.Io.{Ports}
use rix_os.PhysMemory.{Addresses, Offset, physical_to_virtual}

-- What the module takes of the crate x2apic: I/O APICs `C`, their table entries `E` and local APICs
-- `L`.
pub record Chips (C E L : Type 0) : Type 0 where
  pub ioapic_new : (addr : ℕ) → C
  pub ioapic_init : (offset : ℕ) → C → C
  pub set_table_entry : (irq : ℕ) → E → C → C
  pub enable_irq : (irq : ℕ) → C → C
  pub entry_default : E
  pub set_mode_fixed : E → E
  pub set_vector : ℕ → E → E
  pub set_dest : ℕ → E → E
  pub lapic_build : (timer_vector error_vector spurious_vector xapic_base : ℕ) → Option L
  pub lapic_enable : L → L
  pub end_of_interrupt : L → L

pub record IoApic (C : Type 0) : Type 0 where
  pub addr : ℕ
  pub ioapic : Option C

pub record LApic (L : Type 0) : Type 0 where
  pub addr : ℕ
  pub lapic : Option L

-- The statics IOAPIC and LAPIC, nothing before their first use, and the devices behind the ports.
pub record Apics (C L H : Type 0) : Type 0 where
  pub ioapics : Option (List (IoApic C))
  pub local : Option (LApic L)
  pub devices : H

-- `InterruptModel` of the crate acpi
pub data InterruptModel : Type 0 where
  apic : (local_apic_address : ℕ) (io_apics : List ℕ) → InterruptModel
  unknown_model : InterruptModel

-- `Option::map` on what `as_mut()` reaches.
abbrev pub modify {ℓ} : {A : Type ℓ} → (A → A) → Option A → Option A
modify f none = none
modify f (some a) = some (f a)

module _ {C E L H : Type 0} (chips : Chips C E L) (io : Ports H) (x : Addresses) (o : Offset) where
  -- `crate::memory::physical_to_virtual(PhysAddr::new(addr))`
  unfoldable pub mapped : ℕ → Exec ℕ
  mapped addr = do p ← x.phys_new addr; physical_to_virtual x o p

  -- `IOApic::new`
  unfoldable pub new_ioapic : ℕ → Exec (IoApic C)
  new_ioapic addr = do virt ← mapped addr; done (record { addr = virt; ioapic = none })

  -- `IOApic::init`
  unfoldable pub init_chip : IoApic C → IoApic C
  init_chip a = record a { ioapic = some (chips.ioapic_new a.addr) }

  -- The keyboard, IRQ 1, goes to vector 33 of processor 0.
  unfoldable pub keyboard_entry : E
  keyboard_entry = chips.set_dest 0 (chips.set_vector 33 (chips.set_mode_fixed chips.entry_default))

  -- `IOApic::enable`
  unfoldable pub enable_chip : IoApic C → IoApic C
  enable_chip a = record a {
    ioapic =
        modify
          (λ c.
            chips.enable_irq 1 (chips.set_table_entry 1 keyboard_entry (chips.ioapic_init 32 c)))
          a.ioapic;
  }

  -- `LApic::new`
  unfoldable pub new_lapic : ℕ → Exec (LApic L)
  new_lapic addr = do virt ← mapped addr; done (record { addr = virt; lapic = none })

  -- The port writes of `LApic::init`: both 8259 PICs are set up at vectors 0xf8 and 0xff, and masked.
  unfoldable pub init_pics : H → H
  init_pics h =
      let h = io.out8 0x80 0 (io.out8 0xa0 0x11 (io.out8 0x20 0x11 h)) in
      let h = io.out8 0x80 0 (io.out8 0xa1 0xff (io.out8 0x21 0xf8 h)) in
      let h = io.out8 0x80 0 (io.out8 0x21 0x4 h) in
      let h = io.out8 0x80 0 (io.out8 0xa1 0x2 h) in
      let h = io.out8 0x80 0 (io.out8 0xa1 0x1 (io.out8 0x21 0x1 h)) in
      io.out8 0xa1 0xff (io.out8 0x21 0xff h)

  -- The rest of `LApic::init`.
  unfoldable pub build_lapic : LApic L → LApic L
  build_lapic a = record a { lapic = chips.lapic_build 32 51 0xff a.addr }

  -- `LApic::enable`
  unfoldable pub enable_lapic : LApic L → Exec (LApic L)
  enable_lapic a = do l ← unwrap a.lapic; done (record a { lapic = some (chips.lapic_enable l) })

  -- `LApic::end_interrupts`
  unfoldable pub end_interrupts : LApic L → Exec (LApic L)
  end_interrupts a = do
    l ← unwrap a.lapic
    done (record a { lapic = some (chips.end_of_interrupt l) })

  -- `LAPIC.init_once`
  unfoldable pub init_once : ℕ → Option (LApic L) → Exec (LApic L)
  init_once addr none = new_lapic addr
  init_once addr (some a) = done a

  unfoldable pub init_lapic : ℕ → Apics C L H → Exec (Apics C L H)
  init_lapic addr s = do
    a ← init_once addr s.local
    done (record s { local = some (build_lapic a); devices = init_pics s.devices })

  -- `IOAPIC.call_once`
  unfoldable pub call_once : ℕ → Option (List (IoApic C)) → Exec (List (IoApic C))
  call_once addr none = do a ← new_ioapic addr; done (a ∷ [])
  call_once addr (some l) = done l

  unfoldable pub init_ioapic : ℕ → Apics C L H → Exec (Apics C L H)
  init_ioapic addr s = do
    l ← call_once addr s.ioapics
    a ← new_ioapic addr
    done (record s { ioapics = some (l ++ a ∷ []) })

  -- The loop over `apic.io_apics`.
  unfoldable pub init_ioapics : List ℕ → Apics C L H → Exec (Apics C L H)
  init_ioapics [] s = done s
  init_ioapics (i ∷ is) s = do s ← init_ioapic i s; init_ioapics is s

  -- The loop over the entries of IOAPIC.
  unfoldable pub start_all : List (IoApic C) → List (IoApic C)
  start_all [] = []
  start_all (a ∷ l) = enable_chip (init_chip a) ∷ start_all l

  -- `init`, from the interrupt model on.
  unfoldable pub init_model : InterruptModel → Apics C L H → Exec (Apics C L H)
  init_model unknown_model s = done s
  init_model (apic local_apic_address io_apics) s = do
    s ← init_lapic local_apic_address s
    s ← init_ioapics io_apics s
    l ← unwrap s.ioapics
    a ← unwrap s.local
    a ← enable_lapic a
    done (record s { ioapics = some (start_all l); local = some a })

  -- `init`; the tables and the platform's interrupt model come from the crate acpi.
  unfoldable pub init :
      {Tables : Type 0} (from_rsdp : ℕ → Option Tables)
      (interrupt_model : Tables → Option InterruptModel) (rsdp_addr : ℕ)
      → Apics C L H
      → Exec (Apics C L H)
  init from_rsdp interrupt_model rsdp_addr s = do
    tables ← unwrap (from_rsdp rsdp_addr)
    model ← unwrap (interrupt_model tables)
    init_model model s
