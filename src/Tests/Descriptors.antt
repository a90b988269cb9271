-- ===== src/Tests/Descriptors.antt =====
-- A descriptor table as a list, and a serial line that keeps what is sent.
use rix_os.Base.{
  ℕ, ◌+◌, ◌-◌, ◌≤◌, ◌≡◌, refl, ◌∙◌, inl, true, none, some, List, [], ◌∷◌, ◌++◌, ◌==◌, leb,
  if◌then◌else◌, arith, length, get_elem?, get_elem?-append_left, get_elem?-append_last,
  lt-of_get_elem?, Exec, done, panic,
}
use rix_os.Tests.Hardware.{addresses}
use rix_os.Tests.PageTables.{virt_sums}
use rix_os.Segments as Segments
use rix_os.Segments.{TaskStateSegment, Gdts, SegmentRegisters, stack_size, tss}
use rix_os.Segments.Stacks.{tss_lem}
use rix_os.Segments.Loaded.{Appended, GdtLaws, IsLoaded, init-IsLoaded}
use rix_os.Interrupts.{lookup, Entry, double_fault_handler}

-- 9 stands for the task state segment, which takes two entries.
abbrev pub size : ℕ → ℕ
size d = if d == 9 then 2 else 1

abbrev pub used : List ℕ → ℕ
used [] = 0
used (d ∷ t) = size d + used t

used-append : (t : List ℕ) (d : ℕ) → used (t ++ d ∷ []) ≡ used t + size d
used-append [] d = omega arith
used-append (e ∷ t) d = omega (arith, used-append t d)

abbrev pub append : ℕ → List ℕ → Exec (ℕ × List ℕ)
append d t = if leb (size d) (7 - used t) then done (length t, t ++ d ∷ []) else panic

abbrev pub gdts : Gdts (List ℕ) ℕ ℕ
gdts = record {
  new = [];
  append = append;
  kernel_code_segment = 1;
  kernel_data_segment = 2;
  user_code_segment = 3;
  user_data_segment = 4;
  tss_segment = λ t. 9;
}

pub append-Appended :
    (d : ℕ) (t : List ℕ)
    → size d ≤ 7 - used t
    → (s : ℕ) × (t' : List ℕ) × (append d t ≡ done (s, t'))
      × Appended get_elem? (λ t. 7 - used t) size d t s t'
append-Appended d t h =
    let fits : leb (size d) (7 - used t) ≡ true = ground arith in
    (
      length t,
      t ++ d ∷ [],
      rw fits refl,
      record {
        names = get_elem?-append_last t d;
        keeps = λ s' d' e. get_elem?-append_left t (d ∷ []) s' (lt-of_get_elem? t s' e) ∙ e;
        used = omega (arith, used-append t d);
      },
    )

abbrev pub gdt_laws : GdtLaws gdts
gdt_laws = record {
  descriptor = get_elem?;
  free = λ t. 7 - used t;
  size = size;
  free-new = refl;
  size-code = refl;
  size-data = refl;
  size-user_code = refl;
  size-user_data = refl;
  size-tss = λ t. refl;
  append_lem = append-Appended;
}

abbrev pub no_segments : SegmentRegisters (List ℕ) ℕ
no_segments = record { gdtr = none; cs = none; ds = none; ss = none; tr = none }

init-IsLoaded_example :
    (r : SegmentRegisters (List ℕ) ℕ) × (Segments.init addresses virt_sums 0x200000 gdts no_segments
      ≡ done r)
    × IsLoaded gdts gdt_laws 0x200000 r
init-IsLoaded_example =
    init-IsLoaded addresses virt_sums 0x200000 gdts gdt_laws no_segments
      (inl (omega arith), inl (omega arith), omega arith)

abbrev double_fault : Entry
double_fault = record { vector = 8; handler = double_fault_handler; stack_index = some 0 }

tss_example :
    (t : TaskStateSegment) × (tss addresses virt_sums 0x200000 ≡ done t)
    × (get_elem? t.interrupt_stack_table 0 ≡ some 0x205000)
unfolding lookup
tss_example =
    tss_lem addresses virt_sums 0x200000 8 0 double_fault
      (inl (omega arith), inl (omega arith), omega arith) refl refl
