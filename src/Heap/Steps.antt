-- ===== src/Heap/Steps.antt =====
-- The steps of `init` of kernel/src/memory/heap_allocator.rs, and what it relies on in `map_to`.
use rix_os.Base.{
  ℕ, zero, suc, ◌+◌, ◌*◌, ◌<◌, ◌≡◌, Option, none, some, Exec, done, >>=-eq-done, done_eq, refl, ap,
  ◌∙◌, arith, subst,
}
use rix_os.Frames.{FrameAllocator, PhysFrames, allocate_frame, steps}
use rix_os.Heap.{
  MapOutcome, mapped, map_error, MapTo, InitResult, ok, frame_allocation_failed, map_to_failed,
  Memory, map_frame, map_page, map_pages, of_outcome, and_then,
}

pub failed≢ok :
    {M : Type 0} {s s' : Memory M}
    → ◌≡◌ {A = InitResult × Memory M} (frame_allocation_failed, s) (ok, s')
    → ⊥
failed≢ok e = let r = ap (λ r. r.0) e in cc

pub map_to_failed≢ok :
    {M : Type 0} {s s' : Memory M} → ◌≡◌ {A = InitResult × Memory M} (map_to_failed, s) (ok, s') → ⊥
map_to_failed≢ok e = let r = ap (λ r. r.0) e in cc

pub of_outcome-ok :
    {M : Type 0} (outcome : MapOutcome M) (s s' : Memory M)
    → of_outcome outcome s ≡ (ok, s')
    → (tables : M) × (frames : FrameAllocator) × (outcome ≡ mapped tables frames)
      × (record s { tables = tables; frames = frames } ≡ s')
of_outcome-ok (mapped tables frames) s s' e = (tables, frames, refl, ap (λ r. r.1) e)
of_outcome-ok (map_error tables frames) s s' e = absurd (map_to_failed≢ok e)

pub and_then-ok :
    {M : Type 0} (r : InitResult) (s : Memory M) (f : Memory M → Exec (InitResult × Memory M))
    (s' : Memory M)
    → and_then r s f ≡ done (ok, s')
    → (r ≡ ok) × (f s ≡ done (ok, s'))
and_then-ok ok s f s' e = (refl, e)
and_then-ok frame_allocation_failed s f s' e = absurd (failed≢ok (done_eq e))
and_then-ok map_to_failed s f s' e = absurd (map_to_failed≢ok (done_eq e))

abbrev pub frames_of : {M : Type 0} → MapOutcome M → FrameAllocator
frames_of (mapped tables frames) = frames
frames_of (map_error tables frames) = frames

-- What the code relies on in `map_to`: it returns, and keeps the allocator's memory map; when it
-- returns no error the page leads to the frame, and it never changes where a mapped page leads.
pub record Mapping (M : Type 0) (map_to : MapTo M) : Type 0 where
  pub returns :
      (page frame : ℕ) (frames : FrameAllocator) (tables : M)
      → (outcome : MapOutcome M) × (map_to page frame frames tables ≡ done outcome)
        × ((frames_of outcome).memory_map ≡ frames.memory_map)
  pub translate : M → ℕ → Option ℕ
  pub maps :
      (page frame : ℕ) (frames frames' : FrameAllocator) (tables tables' : M)
      → map_to page frame frames tables ≡ done (mapped tables' frames')
      → translate tables' page ≡ some frame
  pub keeps :
      (page frame other target : ℕ) (frames frames' : FrameAllocator) (tables tables' : M)
      → map_to page frame frames tables ≡ done (mapped tables' frames')
      → translate tables other ≡ some target
      → translate tables' other ≡ some target

module _ {M : Type 0} (x : PhysFrames) (map_to : MapTo M) (g : Mapping M map_to) where
  -- After a step without error: the page is mapped, what was mapped is so still, and the allocator
  -- is as it was.
  abbrev Step : (page : ℕ) (s s' : Memory M) → Type 0
  Step page s s' =
      ((frame : ℕ) × (g.translate s'.tables page ≡ some frame))
      × ((other target : ℕ)
          → g.translate s.tables other ≡ some target
          → g.translate s'.tables other ≡ some target)

  map_frame-Step :
      (page : ℕ) (f : Option ℕ) (s s' : Memory M)
      → map_frame x map_to page f s ≡ done (ok, s')
      → Step page s s'
  unfolding map_frame
  map_frame-Step page none s s' e = absurd (failed≢ok (done_eq e))
  map_frame-Step page (some frame) s s' e =
      let p = >>=-eq-done (map_to page frame s.frames s.tables) _ e in
      let q = of_outcome-ok p.0 s s' (done_eq p.2) in
      let step = p.1 ∙ ap done q.2 in
      subst (λ t. Step page s t) q.3
        (
          (frame, g.maps page frame s.frames q.1 s.tables q.0 step),
          λ other target. g.keeps page frame other target s.frames q.1 s.tables q.0 step,
        )

  map_page-Step :
      (page : ℕ) (s s' : Memory M) → map_page x map_to page s ≡ done (ok, s') → Step page s s'
  unfolding map_page
  map_page-Step page s s' e =
      let p = >>=-eq-done (allocate_frame x s.frames) _ e in
      map_frame-Step page p.0.0 (record s { frames = p.0.1 }) s' p.2

  -- The first page stays mapped while the others are.
  at :
      {n : ℕ} (start : ℕ) (s s' : Memory M)
      → ((frame : ℕ) × (g.translate s.tables start ≡ some frame))
      → ((i : ℕ)
          → i < n
          → (frame : ℕ) × (g.translate s'.tables (start + 4096 + i * 4096) ≡ some frame))
        × ((other target : ℕ)
            → g.translate s.tables other ≡ some target
            → g.translate s'.tables other ≡ some target)
      → (i : ℕ) → i < suc n
      → (frame : ℕ) × (g.translate s'.tables (start + i * 4096) ≡ some frame)
  at start s s' here rest zero lt =
      let p : start ≡ start + 0 * 4096 = omega arith in
      (here.0, subst (λ a. g.translate s'.tables a ≡ some here.0) p (rest.1 start here.0 here.1))
  at start s s' here rest (suc i) lt =
      let r = rest.0 i (omega arith) in
      let p : start + 4096 + i * 4096 ≡ start + suc i * 4096 = omega arith in
      (r.0, subst (λ a. g.translate s'.tables a ≡ some r.0) p r.1)

  pub map_pages-maps :
      (n start : ℕ) (s s' : Memory M)
      → map_pages x map_to (steps n start) s ≡ done (ok, s')
      → ((i : ℕ) → i < n → (frame : ℕ) × (g.translate s'.tables (start + i * 4096) ≡ some frame))
        × ((other target : ℕ)
            → g.translate s.tables other ≡ some target
            → g.translate s'.tables other ≡ some target)
  unfolding map_pages steps
  map_pages-maps zero start s s' e = (
    λ i lt. absurd (omega arith),
    λ other target h. subst (λ r. g.translate r.1.tables other ≡ some target) (done_eq e) h,
  )
  map_pages-maps (suc n) start s s' e =
      let p = >>=-eq-done (map_page x map_to start s) _ e in
      let q = and_then-ok p.0.0 p.0.1 _ s' p.2 in
      let here = map_page-Step start s p.0.1 (p.1 ∙ ap (λ r. done (r, p.0.1)) q.0) in
      let rest = map_pages-maps n (start + 4096) p.0.1 s' q.1 in
      (at start p.0.1 s' here.0 rest, λ other target h. rest.1 other target (here.1 other target h))
