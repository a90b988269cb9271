-- ===== src/Heap.antt =====
-- kernel/src/memory/heap_allocator.rs: the pages of the kernel heap.
pub mod Mapped
pub mod Steps
use rix_os.Base.{
  ℕ, zero, suc, ◌+◌, ◌*◌, ◌-◌, ◌/◌, Option, none, some, List, [], ◌∷◌, Exec, done, ◌>>=◌,
}
use rix_os.Frames.{FrameAllocator, PhysFrames, allocate_frame, steps}

abbrev pub heap_start : ℕ
heap_start = 0xffff_a000_0000_0000

abbrev pub heap_size : ℕ
heap_size = 32 * 1024 * 1024

-- What `map_to` of the crate x86_64's `Mapper` returns, with the page tables `M` and the allocator
-- that it took frames for new tables from.
pub data MapOutcome (M : Type 0) : Type 0 where
  mapped : M → FrameAllocator → MapOutcome M
  map_error : M → FrameAllocator → MapOutcome M

-- `map_to(page, frame, PRESENT | WRITABLE, frame_allocator)`
abbrev pub MapTo : Type 0 → Type 0
MapTo M = (page frame : ℕ) → FrameAllocator → M → Exec (MapOutcome M)

-- The result of `init`; its errors are not told apart by `memory::init`.
pub data InitResult : Type 0 where
  ok frame_allocation_failed map_to_failed : InitResult

-- The page tables, the frame allocator, and `ALLOCATOR`: empty, or set up at a start and size.
pub record Memory (M : Type 0) : Type 0 where
  pub tables : M
  pub frames : FrameAllocator
  pub allocator : Option (ℕ × ℕ)

-- `page_range`: from the page of the first byte of the heap to that of the last
abbrev pub page_count : ℕ
page_count = (heap_start + heap_size - 1) / 4096 - heap_start / 4096 + 1

unfoldable pub page_range : List ℕ
page_range = steps page_count (heap_start / 4096 * 4096)

-- The `?` after `map_to`.
abbrev pub of_outcome : {M : Type 0} → MapOutcome M → Memory M → InitResult × Memory M
of_outcome (mapped tables frames) s = (ok, record s { tables = tables; frames = frames })
of_outcome (map_error tables frames) s =
    (map_to_failed, record s { tables = tables; frames = frames })

-- What follows a step that an error ends.
abbrev pub and_then :
    {M : Type 0}
    → InitResult
    → Memory M
    → (Memory M → Exec (InitResult × Memory M))
    → Exec (InitResult × Memory M)
and_then ok s f = f s
and_then frame_allocation_failed s f = done (frame_allocation_failed, s)
and_then map_to_failed s f = done (map_to_failed, s)

module _ {M : Type 0} (x : PhysFrames) (map_to : MapTo M) where
  -- `ok_or(FrameAllocationFailed)?` on the frame, and its mapping.
  unfoldable pub map_frame : (page : ℕ) → Option ℕ → Memory M → Exec (InitResult × Memory M)
  map_frame page none s = done (frame_allocation_failed, s)
  map_frame page (some frame) s = do
    outcome ← map_to page frame s.frames s.tables
    done (of_outcome outcome s)

  -- The body of the loop.
  unfoldable pub map_page : (page : ℕ) → Memory M → Exec (InitResult × Memory M)
  map_page page s = do r ← allocate_frame x s.frames; map_frame page r.0 (record s { frames = r.1 })

  unfoldable pub map_pages : (pages : List ℕ) → Memory M → Exec (InitResult × Memory M)
  map_pages [] s = done (ok, s)
  map_pages (page ∷ pages) s = do r ← map_page page s; and_then r.0 r.1 (map_pages pages)

  -- The loop, and then `ALLOCATOR.lock().init(heap_start, heap_size)`.
  unfoldable pub init : Memory M → Exec (InitResult × Memory M)
  init s = do
    r ← map_pages page_range s
    and_then r.0 r.1 λ s. done (ok, record s { allocator = some (heap_start, heap_size) })
