-- ===== src/Tests/LargeMemory.antt =====
-- A memory with frames for the whole heap.
use mathlib.Core.List.{append-nil}
use rix_os.Base.{
  ℕ, zero, suc, ◌+◌, ◌-◌, ◌*◌, ◌/◌, ◌^◌, ◌<◌, ◌≤◌, ◌≡◌, ◌≢◌, ◌⊎◌, refl, ap, ◌∙◌, true, false, none,
  some, List, [], ◌∷◌, leb, ◌==◌, arith, get_elem?, done, if◌then◌else◌,
}
use rix_os.Tests.Hardware.{phys_frames}
use rix_os.Tests.PageTables.{Tables, map_to, mapping, no_tables}
use rix_os.Frames.{
  MemoryRegion, usable, bootloader, usable_regions, steps, step_by_page, addresses, from_min,
}
use rix_os.Frames.Order.{IsAscending}
use rix_os.Frames.Allocate.{IsBounded, allocate_frame_lem}
use rix_os.Heap as Heap
use rix_os.Heap.{InitResult}
use rix_os.Heap.Mapped.{IsHeap, init_lem}
use rix_os.Heap.{Memory, ok, map_frame, map_page, map_pages, page_range, heap_start}

-- One page that is taken, and `n` that are free, from 1 MiB on.
abbrev pub with_free : (n : ℕ) → List MemoryRegion
with_free n =
    record { start = 0x100000; end = 0x101000; kind = bootloader }
    ∷ record { start = 0x101000; end = 0x101000 + n * 4096; kind = usable }
    ∷ []

steps_at : (n a i : ℕ) → i < n → get_elem? (steps n a) i ≡ some (a + i * 4096)
unfolding steps
steps_at zero a i h = absurd (omega arith)
steps_at (suc n) a zero h = ap some (omega arith)
steps_at (suc n) a (suc i) h = steps_at n (a + 4096) i (omega arith) ∙ ap some (omega arith)

from_min-steps : (n a : ℕ) → 0x100000 ≤ a → from_min (steps n a) ≡ steps n a
unfolding from_min steps
from_min-steps zero a h = refl
from_min-steps (suc n) a h =
    let e : leb 0x100000 a ≡ true = ground arith in
    rw (e, from_min-steps n (a + 4096) (omega arith)) refl

usable_of : (n : ℕ) → from_min (addresses (usable_regions (with_free n))) ≡ steps n 0x101000
unfolding addresses usable_regions step_by_page
usable_of n =
    let count : (0x101000 + n * 4096 - 0x101000 + 4095) / 4096 ≡ n = omega arith in
    rw (count, append-nil (steps n 0x101000)) (from_min-steps n 0x101000 (omega arith))

module _ (n : ℕ) (small : n < 2 ^ 20) where
  pub with_free-IsAscending : IsAscending 0 (with_free n)
  with_free-IsAscending = (
    omega arith,
    omega arith,
    omega arith,
    omega arith,
    (omega arith, omega arith, omega arith, omega arith, tt),
  )

  with_free-IsBounded : IsBounded (with_free n)
  with_free-IsBounded = (omega arith, (omega arith, tt))

  -- `left` pages from `start` on, none of them mapped so far, with as many frames left.
  map_pages-ok :
      (left i start : ℕ) (tables : Tables)
      → i + left ≤ n
      → ((p : ℕ) → start ≤ p → tables p ≡ none)
      → (s : Memory Tables) × (map_pages phys_frames map_to (steps left start) (record {
        tables = tables;
        frames = record { memory_map = with_free n; next = i };
        allocator = none;
      })
          ≡ done (ok, s))
  unfolding map_pages map_page map_frame steps
  map_pages-ok zero i start tables h free = (_, refl)
  map_pages-ok (suc left) i start tables h free =
      let (s, e) =
        map_pages-ok left (i + 1) (start + 4096)
          (λ p. if p == start then some (0x101000 + i * 4096) else tables p) (omega arith)
          (λ p l. let e : (p == start) ≡ false = ground arith in rw e (free p (omega arith))) in
      (
        s,
        rw
            (
              allocate_frame_lem phys_frames (with_free n) with_free-IsAscending with_free-IsBounded
                  i (omega arith),
              usable_of n,
              steps_at n 0x101000 i (omega arith),
              free start (omega arith),
            )
            e,
      )

  pub with_free-ok :
      8192 ≤ n
      → (level_4_table offset : ℕ)
      → (s : Memory Tables) × (Heap.init phys_frames map_to (record {
        tables = no_tables level_4_table offset;
        frames = record { memory_map = with_free n; next = 0 };
        allocator = none;
      })
          ≡ done (ok, s))
  unfolding Heap.init page_range
  with_free-ok h level_4_table offset =
      let (s, e) =
        map_pages-ok 8192 0 heap_start (no_tables level_4_table offset) (omega arith)
          (λ p l. refl) in
      rw e (_, refl)

-- Frames for all 8192 pages.
abbrev large : Memory Tables
large = record {
  tables = no_tables 0 0;
  frames = record { memory_map = with_free 8192; next = 0 };
  allocator = none;
}

large-ok : (s : Memory Tables) × (Heap.init phys_frames map_to large ≡ done (ok, s))
large-ok = with_free-ok 8192 (omega arith) (omega arith) 0 0

-- The heap's init on `large`, where it ends with Ok by `large-ok`.
init_example :
    (r : InitResult) × (s : Memory Tables) × (Heap.init phys_frames map_to large ≡ done (r, s))
    × (((r ≡ ok) × IsHeap phys_frames map_to mapping s) ⊎ ((r ≢ ok) × (s.allocator ≡ none)))
init_example =
    init_lem phys_frames map_to mapping large
      (with_free-IsAscending 8192 (omega arith), with_free-IsBounded 8192 (omega arith))
