-- ===== src/PhysMemory.antt =====
-- kernel/src/memory/mod.rs: physical memory seen through its mapping at an offset, and the walk
-- through the page tables.
pub mod Bytes
pub mod Walk
use rix_os.Base.{
  ℕ, zero, suc, ◌+◌, ◌*◌, ◌/◌, ◌%◌, ◌^◌, ◌<◌, ◌≤◌, ◌≡◌, ◌⊎◌, Option, none, some, List, [], ◌∷◌,
  ◌==◌, if◌then◌else◌, Exec, done, panic, ◌>>=◌, unwrap, u64,
}

-- The addresses that the processor accepts: bit 47 is repeated in the 16 bits above it.
abbrev pub IsCanonical : ℕ → Type 0
IsCanonical a = (a < 2 ^ 47) ⊎ ((2 ^ 64 ≤ a + 2 ^ 47) × (a < 2 ^ 64))

-- `PhysAddr::new` and `VirtAddr::new` of the crate x86_64: they return the address if it is valid,
-- and else panic.
pub record Addresses : Type 0 where
  pub phys_new : ℕ → Exec ℕ
  pub virt_new : ℕ → Exec ℕ
  pub phys_new-done : (a : ℕ) → a < 2 ^ 52 → phys_new a ≡ done a
  pub virt_new-done : (a : ℕ) → IsCanonical a → virt_new a ≡ done a

-- `PageTableEntry::frame` of the crate x86_64: the frame's start, or why there is none.
pub data FrameResult : Type 0 where
  frame : ℕ → FrameResult
  frame_not_present huge_frame : FrameResult

-- What the walk takes from the crate x86_64: the four table indexes and the offset in the page.
pub record Paging : Type 0 where
  pub p4_index : ℕ → ℕ
  pub p3_index : ℕ → ℕ
  pub p2_index : ℕ → ℕ
  pub p1_index : ℕ → ℕ
  pub page_offset : ℕ → ℕ
  pub entry_frame : ℕ → FrameResult
  pub p4_index-eq : (a : ℕ) → p4_index a ≡ a / 2 ^ 39 % 512
  pub p3_index-eq : (a : ℕ) → p3_index a ≡ a / 2 ^ 30 % 512
  pub p2_index-eq : (a : ℕ) → p2_index a ≡ a / 2 ^ 21 % 512
  pub p1_index-eq : (a : ℕ) → p1_index a ≡ a / 2 ^ 12 % 512
  pub page_offset-eq : (a : ℕ) → page_offset a ≡ a % 4096

-- `PHYSICAL_MEMORY_OFFSET`: nothing before `init`.
abbrev pub Offset : Type 0
Offset = Option ℕ

-- `PHYSICAL_MEMORY_OFFSET.call_once`: the first value stays.
unfoldable pub set_offset : ℕ → Offset → Offset
set_offset a none = some a
set_offset a (some b) = some b

unfoldable pub physical_memory_offset : Offset → Exec ℕ
physical_memory_offset o = unwrap o

-- `Some(frame.start_address() + offset)`, or the `None` of the walk.
abbrev pub in_page : ℕ → Option ℕ → Option ℕ
in_page offset none = none
in_page offset (some start) = some (start + offset)

module _ (x : Addresses) where
  unfoldable pub physical_to_virtual : Offset → ℕ → Exec ℕ
  physical_to_virtual o addr = do phys ← unwrap o; x.virt_new (u64 (phys + addr))

  module _ (p : Paging) (tables : (table index : ℕ) → ℕ) where
    -- The loop over the table indexes; `tables t i` is the entry `i` of the table at address `t`.
    unfoldable pub walk : (offset : ℕ) → List ℕ → (start : ℕ) → Exec (Option ℕ)
    walk offset [] start = done (some start)
    walk offset (index ∷ indexes) start = do
      virt ← x.virt_new (u64 (offset + start))
      elim (p.entry_frame (tables virt index)) [
        | frame next ↦ walk offset indexes next
        | frame_not_present ↦ done none
        | huge_frame ↦ panic
      ]

    -- `virtual_to_physical`; `cr3` is the start of the level 4 table.
    unfoldable pub virtual_to_physical : (cr3 : ℕ) → (addr offset : ℕ) → Exec (Option ℕ)
    virtual_to_physical cr3 addr offset = do
      found ←
          walk offset (p.p4_index addr ∷ p.p3_index addr ∷ p.p2_index addr ∷ p.p1_index addr ∷ [])
            cr3
      done (in_page (p.page_offset addr) found)

    unfoldable pub virtual_to_physical_current : (cr3 : ℕ) → Offset → ℕ → Exec (Option ℕ)
    virtual_to_physical_current cr3 o addr = do
      offset ← physical_memory_offset o
      virtual_to_physical cr3 addr offset
