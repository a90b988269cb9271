-- ===== src/Tests/PageTables.antt =====
-- A walk through small page tables, and frames of a small memory map.
use rix_os.Base.{
  true, ℕ, ◌+◌, ◌%◌, ◌^◌, ◌≤◌, ◌≡◌, inl, inr, refl, ◌==◌, arith, if◌then◌else◌, some, none, [], ◌∷◌,
  done, List, Option, ==_refl, Bool-cases, ==_iff, sym, ap, ◌∙◌, done_eq, ◌-◌, leb, panic,
}
use rix_os.MemoryInit.{VirtSums}
use rix_os.Tests.Hardware.{addresses, paging, phys_frames, virt_new, virt_new-canonical}
use rix_os.PhysMemory.{virtual_to_physical}
use rix_os.PhysMemory.Walk.{arrived, onward, virtual_to_physical-Walks}
use rix_os.Frames.{
  MemoryRegion, usable, bootloader, FrameAllocator, allocate_frame, from_min, usable_regions,
}
use rix_os.Frames
use rix_os.Frames.Order.{IsUsable, IsAscending}
use rix_os.Frames.Allocate.{frames_apart, Gives, after_calls, IsBounded}
use rix_os.Heap.{MapOutcome, mapped, map_error, MapTo}
use rix_os.Heap.Steps.{Mapping, frames_of}

-- Every entry of every table leads to the frame at 0x5000.
abbrev tables : (table index : ℕ) → ℕ
tables table index = 0x5001

virtual_to_physical-Walks_example :
    virtual_to_physical addresses paging tables 0x1000 0x12345 (2 ^ 46) ≡ done (some 0x5345)
virtual_to_physical-Walks_example =
    virtual_to_physical-Walks addresses paging tables 0x1000 0x12345 (2 ^ 46) (some 0x5000) (
      onward _ _ _ _ _ (inl (omega arith)) (omega arith) refl (
        onward _ _ _ _ _ (inl (omega arith)) (omega arith) refl (
          onward _ _ _ _ _ (inl (omega arith)) (omega arith) refl
            (onward _ _ _ _ _ (inl (omega arith)) (omega arith) refl (arrived 0x5000)))))

-- One page that is taken, and three that are free, from 1 MiB on.
abbrev pub regions : List MemoryRegion
regions =
    record { start = 0x100000; end = 0x101000; kind = bootloader }
    ∷ record { start = 0x101000; end = 0x104000; kind = usable }
    ∷ []

pub ascending : IsAscending 0 regions
ascending = (
  omega arith,
  omega arith,
  omega arith,
  omega arith,
  (omega arith, omega arith, omega arith, omega arith, tt),
)

bounded : IsBounded regions
bounded = (omega arith, (omega arith, tt))

Gives-first : Gives phys_frames regions ascending bounded 0 0x101000
unfolding after_calls Frames.init allocate_frame Frames.nth_frame Frames.usable_addresses
    Frames.addresses usable_regions from_min Frames.step_by_page Frames.steps
Gives-first = (record { memory_map = regions; next = 1 }, refl)

Gives-third : Gives phys_frames regions ascending bounded 2 0x103000
unfolding after_calls Frames.init allocate_frame Frames.nth_frame Frames.usable_addresses
    Frames.addresses usable_regions from_min Frames.step_by_page Frames.steps
Gives-third = (record { memory_map = regions; next = 3 }, refl)

frames_apart_example :
    IsUsable 0x101000 regions
    × (◌≡◌ {A = ℕ} (0x101000 % 4096) 0)
    × (0x100000 ≤ 0x101000)
    × (0x101000 + 4096 ≤ 0x103000)
frames_apart_example =
    frames_apart phys_frames regions ascending bounded 0 2 (omega arith) (omega arith) Gives-first
      Gives-third

-- Page tables as an association of pages with frames; a page is not mapped twice.
abbrev pub Tables : Type 0
Tables = ℕ → Option ℕ

abbrev pub outcome_of : (page frame : ℕ) → FrameAllocator → Tables → Option ℕ → MapOutcome Tables
outcome_of page frame frames tables (some f) = map_error tables frames
outcome_of page frame frames tables none =
    mapped (λ p. if p == page then some frame else tables p) frames

abbrev pub map_to : MapTo Tables
map_to page frame frames tables = done (outcome_of page frame frames tables (tables page))

none≢some : {n : ℕ} → none ≡ some n → ⊥
none≢some e = cc

tables_of : Tables → MapOutcome Tables → Tables
tables_of tables (mapped tables' frames) = tables'
tables_of tables (map_error tables' frames) = tables

module _ (page frame : ℕ) (frames : FrameAllocator) (tables : Tables) where
  keeps_map :
      (o : Option ℕ)
      → (frames_of (outcome_of page frame frames tables o)).memory_map ≡ frames.memory_map
  keeps_map none = refl
  keeps_map (some f) = refl

  maps_page :
      (o : Option ℕ) {tables' : Tables} {frames' : FrameAllocator}
      → outcome_of page frame frames tables o ≡ mapped tables' frames'
      → tables' page ≡ some frame
  unfolding tables_of
  maps_page none e = sym (ap (λ m. tables_of tables m page) e) ∙ rw (==_refl page) refl
  maps_page (some f) e = cc

  keeps_others :
      (o : Option ℕ) (other : ℕ) {target : ℕ} {tables' : Tables} {frames' : FrameAllocator}
      → tables page ≡ o
      → outcome_of page frame frames tables o ≡ mapped tables' frames'
      → tables other ≡ some target
      → tables' other ≡ some target
  unfolding tables_of
  keeps_others none other t e h =
      sym (ap (λ m. tables_of tables m other) e) ∙ elim (Bool-cases (other == page)) [
        | inl same ↦
            let p = (==_iff other page).0 same in absurd (none≢some (sym t ∙ ap tables (sym p) ∙ h))
        | inr differ ↦ rw differ h
      ]
  keeps_others (some f) other t e h = cc

pub mapping : Mapping Tables map_to
mapping = record {
  returns = λ page frame frames tables. (_, refl, keeps_map page frame frames tables (tables page));
  translate = λ tables page. tables page;
  maps = λ page frame frames frames' tables tables' e.
      maps_page page frame frames tables (tables page) (done_eq e);
  keeps = λ page frame other target frames frames' tables tables' e h.
      keeps_others page frame frames tables (tables page) other refl (done_eq e) h;
}

pub sub_le : (a b : ℕ) → b ≤ a → (if leb b a then done (a - b) else panic) ≡ done (a - b)
sub_le a b l = let e : leb b a ≡ true = ground arith in rw e refl

abbrev pub virt_sums : VirtSums
virt_sums = record {
  add = λ a b. virt_new (a + b);
  sub = λ a b. if leb b a then done (a - b) else panic;
  add-done = λ a b c h. virt_new-canonical (a + b) c;
  sub-done = λ a b l. sub_le a b l;
}

-- No page is mapped at first.
abbrev pub no_tables : (level_4_table offset : ℕ) → Tables
no_tables level_4_table offset page = none
