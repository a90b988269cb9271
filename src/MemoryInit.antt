-- ===== src/MemoryInit.antt =====
-- kernel/src/memory/mod.rs and kernel/src/memory/page_allocator.rs: `init` of the memory.
pub mod Started
use rix_os.Base.{
  ℕ, ◌+◌, ◌-◌, ◌^◌, ◌<◌, ◌≤◌, ◌≡◌, Option, none, some, List, [], ◌∷◌, Exec, done, panic, ◌>>=◌,
  unwrap, u64,
}
use rix_os.PhysMemory.{Addresses, Offset, set_offset, IsCanonical}
use rix_os.Frames
use rix_os.Frames.{MemoryRegion, FrameAllocator, PhysFrames}
use rix_os.Heap
use rix_os.Heap.{MapTo, Memory}

-- What `init` reads of the boot information.
pub record BootInfo : Type 0 where
  pub physical_memory_offset : Option ℕ
  pub memory_regions : List MemoryRegion

-- The statics PHYSICAL_MEMORY_OFFSET and ALLOCATOR.
pub record Statics : Type 0 where
  pub offset : Offset
  pub allocator : Option (ℕ × ℕ)

-- Both statics before `init`.
abbrev pub unset : Statics
unset = record { offset = none; allocator = none }

-- The operators of `VirtAddr`: `+` panics where the sum is no valid address, `-` where it is
-- negative.
pub record VirtSums : Type 0 where
  pub add : ℕ → ℕ → Exec ℕ
  pub sub : ℕ → ℕ → Exec ℕ
  pub add-done : (a b : ℕ) → IsCanonical (a + b) → a + b < 2 ^ 64 → add a b ≡ done (a + b)
  pub sub-done : (a b : ℕ) → b ≤ a → sub a b ≡ done (a - b)

-- The page tables of the crate x86_64 at a level 4 table, `OffsetPageTable::new`.
abbrev pub NewTables : Type 0 → Type 0
NewTables M = (level_4_table offset : ℕ) → M

module _ {M : Type 0} (x : Addresses) (v : VirtSums) (f : PhysFrames) (map_to : MapTo M)
    (new_tables : NewTables M) (cr3 : ℕ) where
  -- `active_level_4_table`
  unfoldable pub active_level_4_table : (offset : ℕ) → Exec ℕ
  active_level_4_table offset = v.add offset cr3

  -- The loop over the regions. It logs them, but its addresses and sizes are computed.
  unfoldable pub check_regions : List MemoryRegion → Exec (Unit {0})
  check_regions [] = done tt
  check_regions (r ∷ rs) = do
    start ← x.virt_new r.start
    end' ← x.virt_new r.end
    size ← v.sub end' start
    check_regions rs

  -- `page_allocator::init`
  unfoldable pub init_pages : BootInfo → Exec (M × FrameAllocator)
  init_pages boot_info = do
    o ← unwrap boot_info.physical_memory_offset
    offset ← x.virt_new o
    l4_table ← active_level_4_table offset
    ok ← check_regions boot_info.memory_regions
    level_4_table ← active_level_4_table offset
    done (new_tables level_4_table offset, Frames.init boot_info.memory_regions)

  -- `memory::init`; the result of `heap_allocator::init` is dropped.
  unfoldable pub init_memory : BootInfo → Statics → Exec (Statics × Memory M)
  init_memory boot_info s = do
    o ← unwrap boot_info.physical_memory_offset
    offset ← x.virt_new o
    pages ← init_pages boot_info
    r ← Heap.init f map_to (record { tables = pages.0; frames = pages.1; allocator = s.allocator })
    done (record { offset = set_offset offset s.offset; allocator = r.1.allocator }, r.1)
