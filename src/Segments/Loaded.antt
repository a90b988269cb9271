-- ===== src/Segments/Loaded.antt =====
-- `init` of kernel/src/gdt.rs: what the segment registers select.
use rix_os.Base.{ℕ, ◌+◌, ◌≤◌, ◌≡◌, refl, Option, some, arith, done}
use rix_os.PhysMemory.{Addresses}
use rix_os.MemoryInit.{VirtSums}
use rix_os.Segments.{TaskStateSegment, Gdts, SegmentRegisters, gdt, init}
use rix_os.Segments.Stacks.{IsPlaced, filled, tss-filled}

-- `append` has put a descriptor into the table `t`: the selector names it, and the selectors given
-- out before name what they did.
pub record Appended {T D S : Type 0} (descriptor : T → S → Option D) (free : T → ℕ) (size : D → ℕ)
    (d : D) (t : T) (s : S) (t' : T) : Type 0 where
  pub names : descriptor t' s ≡ some d
  pub keeps : (s' : S) (d' : D) → descriptor t s' ≡ some d' → descriptor t' s' ≡ some d'
  pub used : free t' + size d ≡ free t

-- What the crate's documentation promises of `GlobalDescriptorTable`: eight entries, the first of
-- them null; a descriptor takes one entry, that of a task state segment two; and `append` works
-- while there are entries left.
pub record GdtLaws {T D S : Type 0} (g : Gdts T D S) : Type 0 where
  pub descriptor : T → S → Option D
  pub free : T → ℕ
  pub size : D → ℕ
  pub free-new : free g.new ≡ 7
  pub size-code : size g.kernel_code_segment ≡ 1
  pub size-data : size g.kernel_data_segment ≡ 1
  pub size-user_code : size g.user_code_segment ≡ 1
  pub size-user_data : size g.user_data_segment ≡ 1
  pub size-tss : (tss : TaskStateSegment) → size (g.tss_segment tss) ≡ 2
  pub append_lem :
      (d : D) (t : T)
      → size d ≤ free t
      → (s : S) × (t' : T) × (g.append d t ≡ done (s, t')) × Appended descriptor free size d t s t'

-- The register selects the descriptor.
pub record Selects {T D S : Type 0} (descriptor : T → S → Option D) (t : T) (r : Option S) (d : D)
    : Type 0 where
  pub selector : S
  pub loaded : r ≡ some selector
  pub found : descriptor t selector ≡ some d

-- The registers after `init`.
pub record IsLoaded {T D S : Type 0} (g : Gdts T D S) (k : GdtLaws g) (stack : ℕ)
    (r : SegmentRegisters T S) : Type 0 where
  pub table : T
  pub gdtr : r.gdtr ≡ some table
  pub cs : Selects k.descriptor table r.cs g.kernel_code_segment
  pub ds : Selects k.descriptor table r.ds g.kernel_data_segment
  pub ss : Selects k.descriptor table r.ss g.kernel_data_segment
  pub tr : Selects k.descriptor table r.tr (g.tss_segment (filled stack))

module _ (x : Addresses) (v : VirtSums) (stack : ℕ) {T D S : Type 0} (g : Gdts T D S)
    (k : GdtLaws g) where
  -- The five descriptors fit, and `init` does not panic: after it, CS selects the kernel's code
  -- segment in the loaded table, DS and SS its data segment, and TR the task state segment whose
  -- first four stacks are the end of `STACK`.
  pub init-IsLoaded :
      (r : SegmentRegisters T S)
      → IsPlaced stack
      → (r' : SegmentRegisters T S) × (init x v stack g r ≡ done r') × IsLoaded g k stack r'
  unfolding init gdt
  init-IsLoaded r p =
      let (s1, t1, e1, a1) =
        k.append_lem g.kernel_code_segment g.new (omega (arith, k.free-new, k.size-code)) in
      let (s2, t2, e2, a2) =
        k.append_lem g.kernel_data_segment t1
          (omega (arith, k.free-new, k.size-code, k.size-data, a1.used)) in
      let (s3, t3, e3, a3) =
        k.append_lem g.user_code_segment t2 (
          omega
            (arith, k.free-new, k.size-code, k.size-data, k.size-user_code, a1.used, a2.used)) in
      let (s4, t4, e4, a4) = k.append_lem g.user_data_segment t3 (
        omega (
          arith, k.free-new, k.size-code, k.size-data, k.size-user_code, k.size-user_data, a1.used,
          a2.used, a3.used,
        )) in
      let (s5, t5, e5, a5) = k.append_lem (g.tss_segment (filled stack)) t4 (
        omega (
          arith,
          k.free-new,
          k.size-code,
          k.size-data,
          k.size-user_code,
          k.size-user_data,
          k.size-tss (filled stack),
          a1.used,
          a2.used,
          a3.used,
          a4.used,
        )) in
      let code_found : k.descriptor t5 s1 ≡ some g.kernel_code_segment =
        a5.keeps s1 _ (a4.keeps s1 _ (a3.keeps s1 _ (a2.keeps s1 _ a1.names))) in
      let data_found : k.descriptor t5 s2 ≡ some g.kernel_data_segment =
        a5.keeps s2 _ (a4.keeps s2 _ (a3.keeps s2 _ a2.names)) in
      (
        _,
        rw (e1, e2, e3, e4, tss-filled x v stack p, e5) refl,
        record {
          table = t5;
          gdtr = refl;
          cs = record { selector = s1; loaded = refl; found = code_found };
          ds = record { selector = s2; loaded = refl; found = data_found };
          ss = record { selector = s2; loaded = refl; found = data_found };
          tr = record { selector = s5; loaded = refl; found = a5.names };
        },
      )
