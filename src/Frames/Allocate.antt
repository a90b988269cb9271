-- ===== src/Frames/Allocate.antt =====
-- What `allocate_frame` hands out, for a memory map in ascending order and aligned to pages.
use rix_os.Base.{
  ℕ, zero, suc, ◌+◌, ◌*◌, ◌%◌, ◌^◌, ◌<◌, ◌≤◌, ◌≡◌, refl, sym, ap, subst, ◌∙◌, inl, inr, true, some,
  List, [], ◌∷◌, leb, get_elem?, arith, Bool-cases, All, All-append, All-map, Exec, done, ◌>>=◌,
  u64, done_eq, some_eq,
}
use rix_os.Frames.{
  MemoryRegionKind, usable, bootloader, unknown, MemoryRegion, is_usable, min_usable_pa,
  usable_regions, steps, step_by_page, addresses, from_min, FrameAllocator, usable_addresses,
  PhysFrames, nth_frame, allocate_frame, init,
}
use rix_os.Frames.Order.{IsAscending, IsUsable, IsSpaced, usable_addresses-IsSpaced}

-- A whole page of a usable region, below the 52 bits of a physical address.
abbrev IsPage : List MemoryRegion → ℕ → Type 0
IsPage rs a = IsUsable a rs × (a % 4096 ≡ 0) × (a < 2 ^ 52)

abbrev pub IsBounded : List MemoryRegion → Type 0
IsBounded rs = All (λ r. r.end ≤ 2 ^ 52) rs

usable-of_is_usable : (k : MemoryRegionKind) → is_usable k ≡ true → k ≡ usable
usable-of_is_usable usable e = refl
usable-of_is_usable bootloader e = cc
usable-of_is_usable unknown e = cc

steps-IsPage :
    (r : MemoryRegion) (rs : List MemoryRegion) (n a : ℕ)
    → r.kind ≡ usable
    → r.start ≤ a
    → a + n * 4096 ≤ r.end
    → a % 4096 ≡ 0
    → r.end ≤ 2 ^ 52
    → All (IsPage (r ∷ rs)) (steps n a)
unfolding steps
steps-IsPage r rs zero a k s e m b = tt
steps-IsPage r rs (suc n) a k s e m b = (
  (inl (k, s, omega arith), m, omega arith),
  steps-IsPage r rs n (a + 4096) k (omega arith) (omega arith) (omega arith) b,
)

addresses-IsPage :
    (lo : ℕ) (rs : List MemoryRegion)
    → IsAscending lo rs
    → IsBounded rs
    → All (IsPage rs) (addresses (usable_regions rs))
unfolding addresses usable_regions step_by_page
addresses-IsPage lo [] w b = tt
addresses-IsPage lo (r ∷ rs) w b =
    let rest : All (IsPage (r ∷ rs)) (addresses (usable_regions rs)) =
      All-map {P = IsPage rs} {Q = IsPage (r ∷ rs)} _ (λ a h. (inr h.0, h.1, h.2))
        (addresses-IsPage r.end rs w.4 b.1) in
    elim (Bool-cases (is_usable r.kind)) [
      | inl e ↦ rw e (
          All-append (IsPage (r ∷ rs)) _ _
            (steps-IsPage r rs _ r.start (usable-of_is_usable r.kind e) (omega arith) (omega arith)
              w.2 b.0)
            rest)
      | inr e ↦ rw e rest
    ]

leb-le : (m n : ℕ) → leb m n ≡ true → m ≤ n
leb-le m n e = ground arith

from_min-All :
    (P : ℕ → Type 0) (l : List ℕ) → All P l → All (λ a. P a × (0x100000 ≤ a)) (from_min l)
unfolding from_min
from_min-All P [] h = tt
from_min-All P (a ∷ as') h =
    let rest = from_min-All P as' h.1 in
    elim (Bool-cases (leb min_usable_pa a)) [
      | inl e ↦ rw e ((h.0, leb-le min_usable_pa a e), rest)
      | inr e ↦ rw e rest
    ]

All-get_elem? :
    {A : Type 0} (P : A → Type 0) (l : List A) (i : ℕ) {a : A}
    → All P l
    → get_elem? l i ≡ some a
    → P a
All-get_elem? P [] i h e = ground arith
All-get_elem? P (x ∷ l) zero h e = subst P (some_eq e) h.0
All-get_elem? P (x ∷ l) (suc i) h e = All-get_elem? P l i h.1 e

IsSpaced-get_elem? :
    (lo : ℕ) (l : List ℕ) (i : ℕ) {a : ℕ} → IsSpaced lo l → get_elem? l i ≡ some a → lo ≤ a
IsSpaced-get_elem? lo [] i s e = ground arith
IsSpaced-get_elem? lo (x ∷ l) zero s e = subst (λ a. lo ≤ a) (some_eq e) s.0
IsSpaced-get_elem? lo (x ∷ l) (suc i) s e =
    omega (arith, s.0, IsSpaced-get_elem? (x + 4096) l i s.1 e)

IsSpaced-apart :
    (lo : ℕ) (l : List ℕ) (i j : ℕ) {a b : ℕ}
    → IsSpaced lo l
    → i < j
    → get_elem? l i ≡ some a
    → get_elem? l j ≡ some b
    → a + 4096 ≤ b
IsSpaced-apart lo [] i j s lt e e' = ground arith
IsSpaced-apart lo (x ∷ l) i zero s lt e e' = absurd (omega arith)
IsSpaced-apart lo (x ∷ l) zero (suc j) s lt e e' =
    omega (arith, some_eq e, IsSpaced-get_elem? (x + 4096) l j s.1 e')
IsSpaced-apart lo (x ∷ l) (suc i) (suc j) s lt e e' =
    IsSpaced-apart (x + 4096) l i j s.1 (omega arith) e e'

module _ (x : PhysFrames) where
  nth_frame-get_elem? :
      (l : List ℕ) (n : ℕ)
      → All (λ a. (a % 4096 ≡ 0) × (a < 2 ^ 52)) l
      → nth_frame x l n ≡ done (get_elem? l n)
  unfolding nth_frame
  nth_frame-get_elem? [] n h = refl
  nth_frame-get_elem? (a ∷ l) zero h =
      rw (x.phys_new-done a h.0.1, x.containing_address-eq a)
        (ap (λ b. done (some b)) (omega arith))
  nth_frame-get_elem? (a ∷ l) (suc n) h = rw (x.phys_new-done a h.0.1) (nth_frame-get_elem? l n h.1)

  -- The state after `n` calls of `allocate_frame`, their frames dropped.
  unfoldable pub after_calls : ℕ → FrameAllocator → Exec FrameAllocator
  after_calls zero f = done f
  after_calls (suc n) f = do r ← allocate_frame x f; after_calls n r.1

  module _ (rs : List MemoryRegion) (w : IsAscending 0 rs) (b : IsBounded rs) where
    usable_addresses-All :
        All (λ a. IsPage rs a × (0x100000 ≤ a)) (from_min (addresses (usable_regions rs)))
    usable_addresses-All = from_min-All (IsPage rs) _ (addresses-IsPage 0 rs w b)

    pub allocate_frame-returns :
        (n : ℕ)
        → allocate_frame x (record { memory_map = rs; next = n })
          ≡ done (
            get_elem? (from_min (addresses (usable_regions rs))) n,
            record { memory_map = rs; next = u64 (n + 1) },
          )
    unfolding allocate_frame usable_addresses
    allocate_frame-returns n =
        rw (nth_frame-get_elem? _ n (All-map _ (λ a p. (p.0.1, p.0.2)) usable_addresses-All)) refl

    -- For a memory map whose regions ascend, are page aligned and end at 2 ^ 52 at most, a call does
    -- not panic: it returns the usable address at the count of calls so far, or none past the last,
    -- and counts the call, as long as the count does not wrap.
    pub allocate_frame_lem :
        (n : ℕ)
        → n + 1 < 2 ^ 64
        → allocate_frame x (record { memory_map = rs; next = n })
          ≡ done (
            get_elem? (from_min (addresses (usable_regions rs))) n,
            record { memory_map = rs; next = n + 1 },
          )
    allocate_frame_lem n h =
        let wrap : u64 (n + 1) ≡ n + 1 = omega arith in rw (allocate_frame-returns n, wrap) refl

    after_calls-eq :
        (n i : ℕ)
        → i + n < 2 ^ 64
        → after_calls n (record { memory_map = rs; next = i })
          ≡ done (record { memory_map = rs; next = i + n })
    unfolding after_calls
    after_calls-eq zero i h = ap (λ m. done (record { memory_map = rs; next = m })) (omega arith)
    after_calls-eq (suc n) i h = rw (allocate_frame_lem i (omega arith)) (
        after_calls-eq n (i + 1) (omega arith)
        ∙ ap (λ m. done (record { memory_map = rs; next = m })) (omega arith))

    after_calls-init :
        (n : ℕ)
        → n < 2 ^ 64
        → after_calls n (record { memory_map = rs; next = 0 })
          ≡ done (record { memory_map = rs; next = n })
    after_calls-init n h =
        after_calls-eq n 0 (omega arith)
        ∙ ap (λ m. done (record { memory_map = rs; next = m })) (omega arith)

    -- The frame of the call after `n` calls on the fresh allocator.
    abbrev pub Gives : (n a : ℕ) → Type 0
    Gives n a =
        (g : FrameAllocator) × ((after_calls n (init rs) >>= allocate_frame x) ≡ done (some a, g))

    Gives-get_elem? :
        (n a : ℕ)
        → n + 1 < 2 ^ 64
        → Gives n a
        → get_elem? (from_min (addresses (usable_regions rs))) n ≡ some a
    unfolding init
    Gives-get_elem? n a h g =
        let e : (get_elem? (from_min (addresses (usable_regions rs))) n, _) ≡ (some a, g.0) =
          done_eq (
            sym (allocate_frame_lem n h)
            ∙ ap (λ m. m >>= allocate_frame x) (sym (after_calls-init n (omega arith)))
            ∙ g.1) in
        ap (λ p. p.0) e

    -- For a memory map whose regions ascend, are page aligned and end at 2 ^ 52 at most, and fewer
    -- than 2 ^ 64 calls: the frame that a call since `init` returns is a whole page of a usable region, at
    -- 1 MiB or above and aligned, and the frame of any later call starts at its end or above, so no
    -- frame is handed out twice.
    pub frames_apart :
        (i j : ℕ) {a b : ℕ}
        → i < j
        → j + 1 < 2 ^ 64
        → Gives i a
        → Gives j b
        → IsUsable a rs × (a % 4096 ≡ 0) × (0x100000 ≤ a) × (a + 4096 ≤ b)
    frames_apart i j {a} {b} lt h g g' =
        let ga = Gives-get_elem? i a (omega arith) g in
        let page =
          All-get_elem? _ (from_min (addresses (usable_regions rs))) i usable_addresses-All ga in
        (
          page.0.0,
          page.0.1,
          page.1,
          IsSpaced-apart 0 _ i j (usable_addresses-IsSpaced rs w) lt ga (Gives-get_elem? j b h g'),
        )
