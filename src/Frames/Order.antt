-- ===== src/Frames/Order.antt =====
-- The addresses of usable frames, for a memory map in ascending order and aligned to pages.
use rix_os.Base.{
  ℕ, zero, suc, ◌+◌, ◌-◌, ◌/◌, ◌*◌, ◌%◌, ◌≤◌, ◌≡◌, ◌⊎◌, inl, inr, List, [], ◌∷◌, ◌++◌, leb, arith,
  Bool-cases,
}
use rix_os.Frames.{
  usable, MemoryRegion, is_usable, min_usable_pa, usable_regions, steps, step_by_page, addresses,
  from_min,
}

-- Regions from `lo` on that follow one another without overlap, with bounds at whole pages.
abbrev pub IsAscending : (lo : ℕ) → List MemoryRegion → Type 0
IsAscending lo [] = Unit {0}
IsAscending lo (r ∷ rs) =
    (lo ≤ r.start)
    × (r.start ≤ r.end)
    × (r.start % 4096 ≡ 0)
    × (r.end % 4096 ≡ 0)
    × IsAscending r.end rs

-- A frame that lies, to its last byte, in a usable region of the map.
abbrev pub IsUsable : (a : ℕ) → List MemoryRegion → Type 0
IsUsable a [] = ⊥
IsUsable a (r ∷ rs) = ((r.kind ≡ usable) × (r.start ≤ a) × (a + 4096 ≤ r.end)) ⊎ IsUsable a rs

-- A list of addresses at least 4096 apart, from `lo` on.
abbrev pub IsSpaced : (lo : ℕ) → List ℕ → Type 0
IsSpaced lo [] = Unit {0}
IsSpaced lo (a ∷ as') = (lo ≤ a) × IsSpaced (a + 4096) as'

pub IsSpaced-le : (lo lo' : ℕ) (l : List ℕ) → lo' ≤ lo → IsSpaced lo l → IsSpaced lo' l
IsSpaced-le lo lo' [] h s = tt
IsSpaced-le lo lo' (a ∷ as') h s = (omega arith, s.1)

-- What follows a spaced list that ends at `hi`.
IsSpaced-steps :
    (n a hi : ℕ) (l : List ℕ) → a + n * 4096 ≤ hi → IsSpaced hi l → IsSpaced a (steps n a ++ l)
unfolding steps
IsSpaced-steps zero a hi l h s = IsSpaced-le hi a l (omega arith) s
IsSpaced-steps (suc n) a hi l h s = (omega arith, IsSpaced-steps n (a + 4096) hi l (omega arith) s)

IsAscending-le :
    (lo lo' : ℕ) (rs : List MemoryRegion) → lo' ≤ lo → IsAscending lo rs → IsAscending lo' rs
IsAscending-le lo lo' [] h w = tt
IsAscending-le lo lo' (r ∷ rs) h w = (omega arith, w.1, w.2, w.3, w.4)

usable_regions-IsAscending :
    (lo : ℕ) (rs : List MemoryRegion) → IsAscending lo rs → IsAscending lo (usable_regions rs)
unfolding usable_regions
usable_regions-IsAscending lo [] w = tt
usable_regions-IsAscending lo (r ∷ rs) w =
    let rest = usable_regions-IsAscending r.end rs w.4 in
    elim (Bool-cases (is_usable r.kind)) [
      | inl e ↦ rw e (w.0, w.1, w.2, w.3, rest)
      | inr e ↦ rw e (IsAscending-le r.end lo (usable_regions rs) (omega arith) rest)
    ]

addresses-IsSpaced :
    (lo : ℕ) (rs : List MemoryRegion) → IsAscending lo rs → IsSpaced lo (addresses rs)
unfolding addresses step_by_page
addresses-IsSpaced lo [] w = tt
addresses-IsSpaced lo (r ∷ rs) w = IsSpaced-le r.start lo _ w.0 (
    IsSpaced-steps ((r.end - r.start + 4095) / 4096) r.start r.end (addresses rs) (omega arith)
      (addresses-IsSpaced r.end rs w.4))

from_min-IsSpaced : (lo : ℕ) (l : List ℕ) → IsSpaced lo l → IsSpaced lo (from_min l)
unfolding from_min
from_min-IsSpaced lo [] s = tt
from_min-IsSpaced lo (a ∷ as') s =
    let rest = from_min-IsSpaced (a + 4096) as' s.1 in
    elim (Bool-cases (leb min_usable_pa a)) [
      | inl e ↦ rw e (s.0, rest)
      | inr e ↦ rw e (IsSpaced-le (a + 4096) lo (from_min as') (omega arith) rest)
    ]

pub usable_addresses-IsSpaced :
    (rs : List MemoryRegion)
    → IsAscending 0 rs
    → IsSpaced 0 (from_min (addresses (usable_regions rs)))
usable_addresses-IsSpaced rs w =
    from_min-IsSpaced 0 _ (addresses-IsSpaced 0 _ (usable_regions-IsAscending 0 rs w))
