-- ===== src/Segments/Stacks.antt =====
-- `TSS` of kernel/src/gdt.rs, and the stacks that kernel/src/interrupts.rs names in its table.
use rix_os.Base.{
  ℕ, ◌+◌, ◌^◌, ◌<◌, ◌≡◌, refl, inl, inr, Option, none, some, List, [], ◌∷◌, arith, get_elem?, done,
  ◌==◌, All, Bool-cases, some_eq, subst,
}
use rix_os.PhysMemory.{Addresses, IsCanonical}
use rix_os.MemoryInit.{VirtSums}
use rix_os.Segments.{TaskStateSegment, stack_size, fill, tss}
use rix_os.Interrupts.{Entry, idt, lookup}

-- `STACK` lies in the address space, with its end.
abbrev pub IsPlaced : (stack : ℕ) → Type 0
IsPlaced stack =
    IsCanonical stack × IsCanonical (stack + stack_size) × (stack + stack_size < 2 ^ 64)

-- The first four entries are the end of `STACK`, the others null.
abbrev pub filled : (stack : ℕ) → TaskStateSegment
filled stack = record {
  interrupt_stack_table = let top = stack + stack_size in top ∷ top ∷ top ∷ top ∷ 0 ∷ 0 ∷ 0 ∷ [];
}

module _ (x : Addresses) (v : VirtSums) (stack : ℕ) where
  pub tss-filled : IsPlaced stack → tss x v stack ≡ done (filled stack)
  unfolding tss fill
  tss-filled (c, c', h) = rw (x.virt_new-done stack c, v.add-done stack stack_size c' h) refl

-- A stack that an entry names.
abbrev pub IsFilled : (stack : ℕ) → Option ℕ → Type 0
IsFilled stack none = Unit {0}
IsFilled stack (some i) =
    get_elem? (filled stack).interrupt_stack_table i ≡ some (stack + stack_size)

lookup-All :
    (P : Entry → Type 0) (n : ℕ) (es : List Entry) (e : Entry)
    → All P es
    → lookup n es ≡ some e
    → P e
unfolding lookup
lookup-All P n [] e a h = cc
lookup-All P n (d ∷ es) e a h = elim (Bool-cases (n == d.vector)) [
  | inl t ↦ subst P (some_eq (ground arith)) a.0
  | inr f ↦ lookup-All P n es e a.1 (ground arith)
]

idt-IsFilled : (stack : ℕ) → All (λ e. IsFilled stack e.stack_index) idt
idt-IsFilled stack = ground arith

-- Where an entry of the interrupt table names a stack, `TSS` can be built and has the end of `STACK`
-- for it, so that the handler of that vector starts on a stack of 5 pages.
pub tss_lem :
    (x : Addresses) (v : VirtSums) (stack n i : ℕ) (e : Entry)
    → IsPlaced stack
    → lookup n idt ≡ some e
    → e.stack_index ≡ some i
    → (t : TaskStateSegment) × (tss x v stack ≡ done t)
      × (get_elem? t.interrupt_stack_table i ≡ some (stack + stack_size))
tss_lem x v stack n i e p h si = (
  filled stack,
  tss-filled x v stack p,
  subst (IsFilled stack) si
      (lookup-All (λ e. IsFilled stack e.stack_index) n idt e (idt-IsFilled stack) h),
)
