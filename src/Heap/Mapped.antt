-- ===== src/Heap/Mapped.antt =====
-- `init` of kernel/src/memory/heap_allocator.rs as a whole.
use rix_os.Base.{
  ℕ, ◌+◌, ◌*◌, ◌<◌, ◌≡◌, ◌≢◌, u64, Option, none, some, List, [], ◌∷◌, Exec, done, ◌>>=◌, refl, sym,
  ◌∙◌, inl, inr, ◌⊎◌, subst,
}
use rix_os.Frames.{PhysFrames}
use rix_os.Frames.Order.{IsAscending}
use rix_os.Frames.Allocate.{IsBounded, allocate_frame-returns}
use rix_os.Heap.{
  heap_start, heap_size, MapOutcome, mapped, map_error, MapTo, InitResult, ok,
  frame_allocation_failed, map_to_failed, Memory, page_range, map_frame, map_page, map_pages,
  of_outcome, and_then, init,
}
use rix_os.Heap.Steps.{frames_of, Mapping, map_pages-maps}

module _ {M : Type 0} (x : PhysFrames) (map_to : MapTo M) (g : Mapping M map_to) where
  -- A memory map that ascends in whole pages, up to 2 ^ 52 at most.
  abbrev pub IsSound : Memory M → Type 0
  IsSound s = IsAscending 0 s.frames.memory_map × IsBounded s.frames.memory_map

  -- What comes of a step from `s`, error or not.
  abbrev Ends : Memory M → Exec (InitResult × Memory M) → Type 0
  Ends s m =
      (r : InitResult) × (s' : Memory M) × (m ≡ done (r, s'))
      × (s'.frames.memory_map ≡ s.frames.memory_map)
      × (s'.allocator ≡ s.allocator)

  of_outcome-keeps :
      (outcome : MapOutcome M) (s : Memory M)
      → ((of_outcome outcome s).1.frames.memory_map ≡ (frames_of outcome).memory_map)
        × ((of_outcome outcome s).1.allocator ≡ s.allocator)
  of_outcome-keeps (mapped tables frames) s = (refl, refl)
  of_outcome-keeps (map_error tables frames) s = (refl, refl)

  map_frame-Ends : (page : ℕ) (f : Option ℕ) (s : Memory M) → Ends s (map_frame x map_to page f s)
  unfolding map_frame
  map_frame-Ends page none s = (frame_allocation_failed, s, refl, refl, refl)
  map_frame-Ends page (some frame) s =
      let m = g.returns page frame s.frames s.tables in
      let k = of_outcome-keeps m.0 s in
      ((of_outcome m.0 s).0, (of_outcome m.0 s).1, rw m.1 refl, k.0 ∙ m.2, k.1)

  map_page-Ends : (page : ℕ) (s : Memory M) → IsSound s → Ends s (map_page x map_to page s)
  unfolding map_page
  map_page-Ends page s d =
      let e = allocate_frame-returns x s.frames.memory_map d.0 d.1 s.frames.next in
      rw e (
        map_frame-Ends page _
          (record s { frames = record s.frames { next = u64 (s.frames.next + 1) } }))

  and_then-Ends :
      (s : Memory M) (m : Exec (InitResult × Memory M))
      (f : Memory M → Exec (InitResult × Memory M))
      → IsSound s
      → Ends s m
      → ((s' : Memory M) → IsSound s' → Ends s' (f s'))
      → Ends s (m >>= λ r. and_then r.0 r.1 f)
  and_then-Ends s m f d (ok, s', e, k, a) h =
      let p = h s' (subst (λ rs. IsAscending 0 rs × IsBounded rs) (sym k) d) in
      (p.0, p.1, rw e p.2, p.3 ∙ k, p.4 ∙ a)
  and_then-Ends s m f d (frame_allocation_failed, s', e, k, a) h =
      (frame_allocation_failed, s', rw e refl, k, a)
  and_then-Ends s m f d (map_to_failed, s', e, k, a) h = (map_to_failed, s', rw e refl, k, a)

  map_pages-Ends : (pages : List ℕ) (s : Memory M) → IsSound s → Ends s (map_pages x map_to pages s)
  unfolding map_pages
  map_pages-Ends [] s d = (ok, s, refl, refl, refl)
  map_pages-Ends (page ∷ pages) s d =
      and_then-Ends s _ _ d (map_page-Ends page s d) (λ s' d'. map_pages-Ends pages s' d')

  -- All 8192 pages of the heap lead to a frame, and the allocator has been given just these.
  abbrev pub IsHeap : Memory M → Type 0
  IsHeap s =
      (s.allocator ≡ some (heap_start, 8192 * 4096))
      × ((i : ℕ)
          → i < 8192
          → (frame : ℕ) × (g.translate s.tables (heap_start + i * 4096) ≡ some frame))

  -- With a sound memory map, and a `map_to` that returns, maps the page it is given and keeps what
  -- is mapped: `init` returns. If the result is Ok, each of the 8192 pages of the heap leads to a
  -- frame and the allocator has been given exactly those 32 MiB; if it is an error, the allocator
  -- is as it was before.
  pub init_lem :
      (s : Memory M)
      → IsSound s
      → (r : InitResult) × (s' : Memory M) × (init x map_to s ≡ done (r, s'))
        × (((r ≡ ok) × IsHeap s') ⊎ ((r ≢ ok) × (s'.allocator ≡ s.allocator)))
  unfolding init page_range
  init_lem s d = outcome s (map_pages-Ends page_range s d)
    where
      outcome :
          (s : Memory M)
          → Ends s (map_pages x map_to page_range s)
          → (r : InitResult) × (s' : Memory M) × (init x map_to s ≡ done (r, s'))
            × (((r ≡ ok) × IsHeap s') ⊎ ((r ≢ ok) × (s'.allocator ≡ s.allocator)))
      outcome s (ok, s', e, k, a) = (
        ok,
        record s' { allocator = some (heap_start, heap_size) },
        rw e refl,
        inl (refl, (refl, (map_pages-maps x map_to g 8192 heap_start s s' e).0)),
      )
      outcome s (frame_allocation_failed, s', e, k, a) =
          (frame_allocation_failed, s', rw e refl, inr ((λ e. cc), a))
      outcome s (map_to_failed, s', e, k, a) = (map_to_failed, s', rw e refl, inr ((λ e. cc), a))
