-- ===== src/MemoryInit/Started.antt =====
-- The memory after `init` of kernel/src/memory/mod.rs at boot.
use rix_os.Base.{
  ℕ, ◌+◌, ◌^◌, ◌<◌, ◌≡◌, ◌≢◌, refl, none, some, List, [], ◌∷◌, done, inl, ◌⊎◌, arith, All,
}
use rix_os.PhysMemory.{Addresses, set_offset, IsCanonical, physical_memory_offset}
use rix_os.Frames
use rix_os.Frames.{MemoryRegion, FrameAllocator, PhysFrames}
use rix_os.Frames.Order.{IsAscending}
use rix_os.Frames.Allocate.{IsBounded}
use rix_os.Heap
use rix_os.Heap.{MapTo, Memory}
use rix_os.Heap.Steps.{Mapping}
use rix_os.Heap.Mapped.{IsHeap, init_lem}
use rix_os.MemoryInit.{
  Statics, unset, VirtSums, NewTables, active_level_4_table, check_regions, init_pages, init_memory,
}

-- Regions within the lower half of the addresses.
abbrev pub IsLow : List MemoryRegion → Type 0
IsLow rs = All (λ r. r.end < 2 ^ 47) rs

low-IsBounded : (rs : List MemoryRegion) → IsLow rs → IsBounded rs
low-IsBounded [] l = tt
low-IsBounded (r ∷ rs) l = (omega (arith, l.0), low-IsBounded rs l.1)

module _ {M : Type 0} (x : Addresses) (v : VirtSums) (f : PhysFrames) (map_to : MapTo M)
    (new_tables : NewTables M) (cr3 : ℕ) (g : Mapping M map_to) where
  -- The memory before `heap_allocator::init`.
  abbrev pub first_memory : List MemoryRegion → (offset : ℕ) → Memory M
  first_memory rs offset = record {
    tables = new_tables (offset + cr3) offset;
    frames = record { memory_map = rs; next = 0 };
    allocator = none;
  }

  check_regions-done :
      (lo : ℕ) (rs : List MemoryRegion)
      → IsAscending lo rs
      → IsLow rs
      → check_regions x v f map_to new_tables cr3 rs ≡ done tt
  unfolding check_regions
  check_regions-done lo [] w l = refl
  check_regions-done lo (r ∷ rs) w l =
      rw
        (
          x.virt_new-done r.start (inl (omega (arith, w.1, l.0))),
          x.virt_new-done r.end (inl l.0),
          v.sub-done r.end r.start w.1,
        )
        (check_regions-done r.end rs w.4 l.1)

  init_pages-done :
      (rs : List MemoryRegion) (offset : ℕ)
      → IsAscending 0 rs
      → IsLow rs
      → IsCanonical offset
      → IsCanonical (offset + cr3)
      → offset + cr3 < 2 ^ 64
      → init_pages x v f map_to new_tables cr3
          (record { physical_memory_offset = some offset; memory_regions = rs })
        ≡ done (new_tables (offset + cr3) offset, Frames.init rs)
  unfolding init_pages active_level_4_table
  init_pages-done rs offset w l c c' h =
      rw (x.virt_new-done offset c, v.add-done offset cr3 c' h, check_regions-done 0 rs w l) refl

  -- At boot, with the level 4 table mapped at the offset, and regions that ascend in whole pages
  -- below 2 ^ 47: `init` does not panic, makes the offset known, and leaves the heap's allocator
  -- with all of the mapped heap where `heap_allocator::init` returns Ok, and else with nothing.
  pub init_memory_lem :
      (rs : List MemoryRegion) (offset : ℕ)
      → IsAscending 0 rs
      → IsLow rs
      → IsCanonical offset
      → IsCanonical (offset + cr3)
      → offset + cr3 < 2 ^ 64
      → (s : Statics) × (m : Memory M) × (r : Heap.InitResult) × (init_memory x v f map_to
            new_tables cr3
            (record { physical_memory_offset = some offset; memory_regions = rs })
            unset
          ≡ done (s, m))
        × (physical_memory_offset s.offset ≡ done offset)
        × (s.allocator ≡ m.allocator)
        × (Heap.init f map_to (first_memory rs offset) ≡ done (r, m))
        × (((r ≡ Heap.ok) × IsHeap f map_to g m) ⊎ ((r ≢ Heap.ok) × (m.allocator ≡ none)))
  unfolding init_memory set_offset physical_memory_offset Frames.init
  init_memory_lem rs offset w l c c' h =
      let (r, m', e, how) = init_lem f map_to g (first_memory rs offset) (w, low-IsBounded rs l) in
      (
        record { offset = some offset; allocator = m'.allocator },
        m',
        r,
        rw (x.virt_new-done offset c, init_pages-done rs offset w l c c' h, e) refl,
        refl,
        refl,
        e,
        how,
      )
