-- ===== src/Segments.antt =====
-- kernel/src/gdt.rs: the segment descriptors, and the stacks that the processor takes for some
-- interrupts.
pub mod Loaded
pub mod Stacks
use rix_os.Base.{
  ℕ, zero, suc, ◌+◌, ◌*◌, Option, none, some, List, [], ◌∷◌, length, set, replicate, Exec, done,
  ◌>>=◌, index,
}
use rix_os.PhysMemory.{Addresses}
use rix_os.MemoryInit.{VirtSums}

abbrev pub double_fault_ist_index : ℕ
double_fault_ist_index = 0

abbrev pub debug_ist_index : ℕ
debug_ist_index = 1

abbrev pub non_maskable_interrupt_ist_index : ℕ
non_maskable_interrupt_ist_index = 2

abbrev pub stack_size : ℕ
stack_size = 4096 * 5

-- `TaskStateSegment` of the crate x86_64, as far as it is used.
pub record TaskStateSegment : Type 0 where
  pub interrupt_stack_table : List ℕ

-- `TaskStateSegment::new`: seven null addresses.
abbrev pub new_tss : TaskStateSegment
new_tss = record { interrupt_stack_table = replicate 7 0 }

-- `tss.interrupt_stack_table[i] = a`
abbrev pub set_stack : (i a : ℕ) → TaskStateSegment → Exec TaskStateSegment
set_stack i a tss = do
  old ← index tss.interrupt_stack_table i
  done (record { interrupt_stack_table = set tss.interrupt_stack_table i a })

-- `frames`
abbrev pub frames : List ℕ
frames = 0 ∷ double_fault_ist_index ∷ debug_ist_index ∷ non_maskable_interrupt_ist_index ∷ []

-- `GlobalDescriptorTable` and `Descriptor` of the crate x86_64, with selectors `S`. `append` panics
-- where the table is full.
pub record Gdts (T D S : Type 0) : Type 0 where
  pub new : T
  pub append : D → T → Exec (S × T)
  pub kernel_code_segment : D
  pub kernel_data_segment : D
  pub user_code_segment : D
  pub user_data_segment : D
  pub tss_segment : TaskStateSegment → D

pub record Selectors (S : Type 0) : Type 0 where
  pub code_selector : S
  pub data_selector : S

pub record Gdt (T S : Type 0) : Type 0 where
  pub gdt : T
  pub tss_selector : S
  pub kernel : Selectors S
  pub user : Selectors S

-- The processor's registers for the segments.
pub record SegmentRegisters (T S : Type 0) : Type 0 where
  pub gdtr : Option T
  pub cs : Option S
  pub ds : Option S
  pub ss : Option S
  pub tr : Option S

module _ (x : Addresses) (v : VirtSums) (stack : ℕ) where
  -- The loop of `TSS`, from entry `i` on. `STACK`, at `stack`, is one static for all of its rounds.
  unfoldable pub fill : (frames : List ℕ) (i : ℕ) → TaskStateSegment → Exec TaskStateSegment
  fill [] i tss = done tss
  fill (frame ∷ frames) i tss = do
    stack_start ← x.virt_new stack
    end' ← v.add stack_start stack_size
    tss ← set_stack i end' tss
    fill frames (suc i) tss

  -- `TSS`
  unfoldable pub tss : Exec TaskStateSegment
  tss = fill frames 0 new_tss

  module _ {T D S : Type 0} (g : Gdts T D S) where
    -- `GDT`
    unfoldable pub gdt : Exec (Gdt T S)
    gdt = do
      (kernel_code_selector, t) ← g.append g.kernel_code_segment g.new
      (kernel_data_selector, t) ← g.append g.kernel_data_segment t
      (user_code_selector, t) ← g.append g.user_code_segment t
      (user_data_selector, t) ← g.append g.user_data_segment t
      state ← tss
      (tss_selector, t) ← g.append (g.tss_segment state) t
      done (record {
        gdt = t;
        tss_selector = tss_selector;
        kernel = record {
          code_selector = kernel_code_selector;
          data_selector = kernel_data_selector;
        };
        user = record { code_selector = user_code_selector; data_selector = user_data_selector };
      })

    -- `init`
    unfoldable pub init : SegmentRegisters T S → Exec (SegmentRegisters T S)
    init r = do
      t ← gdt
      done (record {
        gdtr = some t.gdt;
        cs = some t.kernel.code_selector;
        ds = some t.kernel.data_selector;
        ss = some t.kernel.data_selector;
        tr = some t.tss_selector;
      })
