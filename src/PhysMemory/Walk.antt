-- ===== src/PhysMemory/Walk.antt =====
-- `virtual_to_physical` of kernel/src/memory/mod.rs against the hardware's walk.
use rix_os.Base.{
  ℕ, ◌+◌, ◌-◌, ◌/◌, ◌%◌, ◌^◌, ◌<◌, ◌≡◌, refl, sym, ap, ◌∙◌, Option, none, some, List, [], ◌∷◌,
  arith, Exec, done, panic, ◌>>=◌, u64,
}
use rix_os.PhysMemory.{
  Addresses, Paging, frame, frame_not_present, IsCanonical, walk, in_page, virtual_to_physical,
}

module _ (x : Addresses) (p : Paging) (tables : (table index : ℕ) → ℕ) where
  -- The walk of the hardware from the table at physical address `start`, along the indexes left: it
  -- ends at a frame, or finds an entry that is not present. Every table lies at a valid address of
  -- the mapping at `offset`.
  pub data Walks (offset : ℕ) : List ℕ → (start : ℕ) → Option ℕ → Type 0 where
    arrived : (start : ℕ) → Walks offset [] start (some start)
    onward :
        (index start next : ℕ) (rest : List ℕ) (r : Option ℕ)
        → IsCanonical (offset + start)
        → offset + start < 2 ^ 64
        → p.entry_frame (tables (offset + start) index) ≡ frame next
        → Walks offset rest next r
        → Walks offset (index ∷ rest) start r
    absent :
        (index start : ℕ) (rest : List ℕ)
        → IsCanonical (offset + start)
        → offset + start < 2 ^ 64
        → p.entry_frame (tables (offset + start) index) ≡ frame_not_present
        → Walks offset (index ∷ rest) start none

  walk-onward :
      (offset index start next : ℕ) (rest : List ℕ)
      → IsCanonical (offset + start)
      → offset + start < 2 ^ 64
      → p.entry_frame (tables (offset + start) index) ≡ frame next
      → walk x p tables offset (index ∷ rest) start ≡ walk x p tables offset rest next
  unfolding walk
  walk-onward offset index start next rest c l e =
      let small : u64 (offset + start) ≡ offset + start = omega arith in
      rw (small, x.virt_new-done (offset + start) c, e)

  walk-absent :
      (offset index start : ℕ) (rest : List ℕ)
      → IsCanonical (offset + start)
      → offset + start < 2 ^ 64
      → p.entry_frame (tables (offset + start) index) ≡ frame_not_present
      → walk x p tables offset (index ∷ rest) start ≡ done none
  unfolding walk
  walk-absent offset index start rest c l e =
      let small : u64 (offset + start) ≡ offset + start = omega arith in
      rw (small, x.virt_new-done (offset + start) c, e)

  walk-Walks :
      {offset : ℕ} {indexes : List ℕ} {start : ℕ} {r : Option ℕ}
      → Walks offset indexes start r
      → walk x p tables offset indexes start ≡ done r
  walk-Walks (arrived start) = unfold walk in refl
  walk-Walks {offset} (onward index start next rest r c l e w) =
      walk-onward offset index start next rest c l e ∙ walk-Walks w
  walk-Walks {offset} (absent index start rest c l e) = walk-absent offset index start rest c l e

  -- `virtual_to_physical` gives what the hardware's walk along the bits 39 to 47, 30 to 38, 21 to 29
  -- and 12 to 20 of the address finds: the frame with the offset in the page, or nothing where an
  -- entry is not present.
  pub virtual_to_physical-Walks :
      (cr3 addr offset : ℕ) (r : Option ℕ)
      → Walks offset
          (addr / 2 ^ 39 % 512
            ∷ addr / 2 ^ 30 % 512
            ∷ addr / 2 ^ 21 % 512
            ∷ addr / 2 ^ 12 % 512
            ∷ [])
          cr3
          r
      → virtual_to_physical x p tables cr3 addr offset ≡ done (in_page (addr % 4096) r)
  unfolding virtual_to_physical
  virtual_to_physical-Walks cr3 addr offset r w =
      rw
        (
          p.p4_index-eq addr,
          p.p3_index-eq addr,
          p.p2_index-eq addr,
          p.p1_index-eq addr,
          walk-Walks w,
        )
        (ap (λ o. done (in_page o r)) (p.page_offset-eq addr))

  -- Two addresses of one page take the same walk: the results differ by the offsets in the page.
  abbrev pub moved : (addr addr' : ℕ) → Exec (Option ℕ) → Exec (Option ℕ)
  moved addr addr' (done (some a)) = done (some (a - addr % 4096 + addr' % 4096))
  moved addr addr' (done none) = done none
  moved addr addr' panic = panic

  -- For two addresses of one page `virtual_to_physical` ends in the same way: it panics for both,
  -- finds no frame for both, or its results differ as the offsets in the page do.
  pub virtual_to_physical-same_page :
      (cr3 addr addr' offset : ℕ)
      → addr / 4096 ≡ addr' / 4096
      → virtual_to_physical x p tables cr3 addr' offset
        ≡ moved addr addr' (virtual_to_physical x p tables cr3 addr offset)
  unfolding virtual_to_physical
  virtual_to_physical-same_page cr3 addr addr' offset e =
      let e4 : p.p4_index addr' ≡ p.p4_index addr =
        p.p4_index-eq addr' ∙ omega arith ∙ sym (p.p4_index-eq addr) in
      let e3 : p.p3_index addr' ≡ p.p3_index addr =
        p.p3_index-eq addr' ∙ omega arith ∙ sym (p.p3_index-eq addr) in
      let e2 : p.p2_index addr' ≡ p.p2_index addr =
        p.p2_index-eq addr' ∙ omega arith ∙ sym (p.p2_index-eq addr) in
      let e1 : p.p1_index addr' ≡ p.p1_index addr =
        p.p1_index-eq addr' ∙ omega arith ∙ sym (p.p1_index-eq addr) in
      rw (e4, e3, e2, e1)
        (by_walk (p.page_offset addr) (p.page_offset addr') (p.page_offset-eq addr)
          (p.page_offset-eq addr')
          (walk x p tables offset
            (p.p4_index addr ∷ p.p3_index addr ∷ p.p2_index addr ∷ p.p1_index addr ∷ []) cr3))
    where
      by_walk :
          (o o' : ℕ)
          → o ≡ addr % 4096
          → o' ≡ addr' % 4096
          → (r : Exec (Option ℕ))
          → (r >>= λ found. done (in_page o' found))
            ≡ moved addr addr' (r >>= λ found. done (in_page o found))
      by_walk o o' h h' (done none) = refl
      by_walk o o' h h' (done (some start)) = ap (λ t. done (some t)) (omega arith)
      by_walk o o' h h' panic = refl
