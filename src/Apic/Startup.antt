-- ===== src/Apic/Startup.antt =====
-- The interrupt controllers of kernel/src/apic.rs after `init`.
use rix_os.Base.{ℕ, none, some, List, [], ◌∷◌, ◌++◌, done, panic, ◌≡◌, refl, map, All, ap, sym, ◌∙◌}
use mathlib.Core.List.{append-nil, append_assoc}
use rix_os.Io.{Ports}
use rix_os.PhysMemory.{Addresses, Offset}
use rix_os.Apic.{
  Chips, IoApic, Apics, apic, mapped, new_ioapic, init_chip, keyboard_entry, enable_chip, new_lapic,
  init_pics, build_lapic, enable_lapic, init_once, init_lapic, call_once, init_ioapic, init_ioapics,
  start_all, init_model,
}

module _ {C E L H : Type 0} (chips : Chips C E L) (io : Ports H) (x : Addresses) (o : Offset)
    (virt : ℕ → ℕ) where
  -- The physical address is mapped, at `virt addr`.
  abbrev pub IsMapped : ℕ → Type 0
  IsMapped addr = mapped chips io x o addr ≡ done (virt addr)

  -- A controller set up at an address: its vectors from 32 on, the keyboard's entry set, IRQ 1 on.
  abbrev pub started : (addr : ℕ) → IoApic C
  started addr = record {
    addr = virt addr;
    ioapic = some (
        chips.enable_irq 1 (
          chips.set_table_entry 1 (keyboard_entry chips io x o)
            (chips.ioapic_init 32 (chips.ioapic_new (virt addr)))));
  }

  abbrev fresh : ℕ → IoApic C
  fresh addr = record { addr = virt addr; ioapic = none }

  init_ioapics-eq :
      (addrs : List ℕ) (l : List (IoApic C)) (s : Apics C L H)
      → All IsMapped addrs
      → init_ioapics chips io x o addrs (record s { ioapics = some l })
        ≡ done (record s { ioapics = some (l ++ map fresh addrs) })
  unfolding init_ioapics init_ioapic new_ioapic call_once
  init_ioapics-eq [] l s m = ap (λ l. done (record s { ioapics = some l })) (sym (append-nil l))
  init_ioapics-eq (a ∷ addrs) l s m = rw m.0 (
      init_ioapics-eq addrs (l ++ fresh a ∷ []) s m.1
      ∙ ap (λ l. done (record s { ioapics = some l }))
          (append_assoc l (fresh a ∷ []) (map fresh addrs)))

  init_ioapics-first :
      (a : ℕ) (addrs : List ℕ) (s : Apics C L H)
      → IsMapped a
      → All IsMapped addrs
      → init_ioapics chips io x o (a ∷ addrs) (record s { ioapics = none })
        ≡ done (record s { ioapics = some (map fresh (a ∷ a ∷ addrs)) })
  unfolding init_ioapics init_ioapic new_ioapic call_once
  init_ioapics-first a addrs s e m = rw e (init_ioapics-eq addrs (fresh a ∷ fresh a ∷ []) s m)

  start_all-fresh : (addrs : List ℕ) → start_all chips io x o (map fresh addrs) ≡ map started addrs
  unfolding start_all enable_chip init_chip
  start_all-fresh [] = refl
  start_all-fresh (a ∷ addrs) = ap (λ l. started a ∷ l) (start_all-fresh addrs)

  -- At boot, with an interrupt model of I/O APICs `a ∷ addrs`, every address mapped, and a local
  -- APIC that can be built: `init` masks the PICs, enables the local APIC with its vectors, and
  -- starts an I/O APIC for each address and one more for the first, which is in the list twice.
  pub init_model_lem :
      (lapic_addr a : ℕ) (addrs : List ℕ) (h : H) (l : L)
      → IsMapped lapic_addr
      → All IsMapped (a ∷ addrs)
      → chips.lapic_build 32 51 0xff (virt lapic_addr) ≡ some l
      → init_model chips io x o
          (apic lapic_addr (a ∷ addrs))
          (record { ioapics = none; local = none; devices = h })
        ≡ done (record {
          ioapics = some (map started (a ∷ a ∷ addrs));
          local = some (record { addr = virt lapic_addr; lapic = some (chips.lapic_enable l) });
          devices = init_pics chips io x o h;
        })
  unfolding init_model init_lapic init_once new_lapic build_lapic enable_lapic
  init_model_lem lapic_addr a addrs h l ml m b =
      let s : Apics C L H = record {
        ioapics = none;
        local = some (record { addr = virt lapic_addr; lapic = some l });
        devices = init_pics chips io x o h;
      } in
      rw (ml, b, init_ioapics-first a addrs s m.0 m.1, start_all-fresh (a ∷ a ∷ addrs)) refl

  -- With no I/O APIC in the model the boot panics, however the local APIC comes out.
  pub init_model-panic :
      (lapic_addr : ℕ) (h : H)
      → IsMapped lapic_addr
      → init_model chips io x o
          (apic lapic_addr [])
          (record { ioapics = none; local = none; devices = h })
        ≡ panic
  unfolding init_model init_lapic init_once new_lapic init_ioapics
  init_model-panic lapic_addr h m = rw m refl
