-- ===== src/Frames.antt =====
-- kernel/src/memory/page_allocator.rs: `AbyssFrameAllocator`.
pub mod Order
pub mod Allocate
use rix_os.Base.{
  ℕ, zero, suc, ◌+◌, ◌-◌, ◌/◌, ◌*◌, ◌%◌, ◌^◌, ◌<◌, ◌≡◌, Bool, true, false, Option, none, some, List,
  [], ◌∷◌, ◌++◌, map, leb, if◌then◌else◌, get_elem?, u64, Exec, done, ◌>>=◌,
}

-- `MemoryRegionKind` of the boot information.
pub data MemoryRegionKind : Type 0 where
  usable bootloader unknown : MemoryRegionKind

pub record MemoryRegion : Type 0 where
  pub start : ℕ
  pub end : ℕ
  pub kind : MemoryRegionKind

abbrev pub is_usable : MemoryRegionKind → Bool
is_usable usable = true
is_usable bootloader = false
is_usable unknown = false

pub record FrameAllocator : Type 0 where
  pub memory_map : List MemoryRegion
  pub next : ℕ

-- `AbyssFrameAllocator::init`
unfoldable pub init : List MemoryRegion → FrameAllocator
init memory_map = record { memory_map = memory_map; next = 0 }

abbrev pub min_usable_pa : ℕ
min_usable_pa = 0x0010_0000

-- `regions.filter(|r| r.kind == Usable)`
unfoldable pub usable_regions : List MemoryRegion → List MemoryRegion
usable_regions [] = []
usable_regions (r ∷ rs) = if is_usable r.kind then r ∷ usable_regions rs else usable_regions rs

-- `n` addresses from `a` on, 4096 apart.
unfoldable pub steps : (n a : ℕ) → List ℕ
steps zero a = []
steps (suc n) a = a ∷ steps n (a + 4096)

-- `(start..end).step_by(4096)`
unfoldable pub step_by_page : (start end : ℕ) → List ℕ
step_by_page start end = steps ((end - start + 4095) / 4096) start

-- `.flat_map(|r| r.step_by(4096))`
unfoldable pub addresses : List MemoryRegion → List ℕ
addresses [] = []
addresses (r ∷ rs) = step_by_page r.start r.end ++ addresses rs

-- `.filter(|&addr| addr >= MIN_USABLE_PA)`
unfoldable pub from_min : List ℕ → List ℕ
from_min [] = []
from_min (a ∷ as') = if leb min_usable_pa a then a ∷ from_min as' else from_min as'

-- The addresses behind `usable_frames`, before each is turned into its frame.
unfoldable pub usable_addresses : FrameAllocator → List ℕ
usable_addresses f = from_min (addresses (usable_regions f.memory_map))

-- `PhysFrame::containing_address` of the crate x86_64, given by the start of the frame, and
-- `PhysAddr::new`, which panics above 52 bits.
pub record PhysFrames : Type 0 where
  pub phys_new : ℕ → Exec ℕ
  pub containing_address : ℕ → ℕ
  pub phys_new-done : (a : ℕ) → a < 2 ^ 52 → phys_new a ≡ done a
  pub containing_address-eq : (a : ℕ) → containing_address a ≡ a / 4096 * 4096

module _ (x : PhysFrames) where
  -- `usable_frames().nth(n)`: the iterator is lazy, but turns each address up to the n-th into its
  -- frame.
  unfoldable pub nth_frame : List ℕ → ℕ → Exec (Option ℕ)
  nth_frame [] n = done none
  nth_frame (a ∷ as') zero = do p ← x.phys_new a; done (some (x.containing_address p))
  nth_frame (a ∷ as') (suc n) = do p ← x.phys_new a; nth_frame as' n

  -- `allocate_frame`
  unfoldable pub allocate_frame : FrameAllocator → Exec (Option ℕ × FrameAllocator)
  allocate_frame f = do
    frame ← nth_frame (usable_addresses f) f.next
    done (frame, record f { next = u64 (f.next + 1) })
