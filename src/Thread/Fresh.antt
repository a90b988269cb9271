-- ===== src/Thread/Fresh.antt =====
-- A new thread: what its stack holds, and where it starts.
use rix_os.Base.{
  ℕ, ◌+◌, ◌-◌, ◌*◌, ◌/◌, ◌%◌, ◌^◌, ◌<◌, ◌≤◌, ◌≡◌, refl, ap, ◌∙◌, ◌⊎◌, true, arith, done, u64,
  bit_and,
}
use rix_os.Base.Bits.{bit_and_high}
use rix_os.Machine.{Cpu, Memory, write, run, exec}
use rix_os.Machine.Steps.{write_self, write_ne}
use rix_os.Scheduler.{ready}
use rix_os.Context.{context_switch}
use rix_os.Context.Switch.{Frame, Holds}
use rix_os.Context.Resume.{CanSwitch, context_switch_lem}
use rix_os.Thread.{
  kernel_stack_size, zeroed, Created, stack_top, initial_rsp, store_frame, new, thread_trampoline,
}

-- The frame from which a new thread starts.
abbrev pub fresh_frame : (trampoline entry_fn : ℕ) → Frame
fresh_frame trampoline entry_fn = record {
  r15 = 0;
  r14 = 0;
  r13 = 0;
  r12 = entry_fn;
  rbp = 0;
  rbx = 0;
  return_to = trampoline;
}

align_down : (a : ℕ) → a < 2 ^ 64 → bit_and a (2 ^ 64 - 1 - 0xF) ≡ a / 16 * 16
align_down a h = omega (arith, bit_and_high 4 60 a)

stack_top_lem :
    (ptr : ℕ)
    → ptr + kernel_stack_size < 2 ^ 64
    → stack_top ptr ≡ (ptr + kernel_stack_size) / 16 * 16
unfolding stack_top
stack_top_lem ptr h =
    let same : u64 (ptr + kernel_stack_size) ≡ ptr + kernel_stack_size = omega arith in
    rw same (align_down (ptr + kernel_stack_size) h)

-- The stack pointer of a new thread is 56 bytes below the top of its stack, rounded down to 16.
pub initial_rsp_lem :
    (ptr : ℕ)
    → ptr + kernel_stack_size < 2 ^ 64
    → initial_rsp ptr + 56 ≡ (ptr + kernel_stack_size) / 16 * 16
unfolding initial_rsp
initial_rsp_lem ptr h = omega (arith, stack_top_lem ptr h)

store_frame-Holds :
    (trampoline entry_fn rsp : ℕ) (m : Memory)
    → rsp + 56 < 2 ^ 64
    → Holds (store_frame trampoline entry_fn rsp m) rsp (fresh_frame trampoline entry_fn)
unfolding store_frame write
store_frame-Holds trampoline entry_fn rsp m h = record {
  at_r15 = ground arith;
  at_r14 = ground arith;
  at_r13 = ground arith;
  at_r12 = ground arith;
  at_rbp = ground arith;
  at_rbx = ground arith;
  at_return = ground arith;
}

store_frame_outside :
    (trampoline entry_fn rsp : ℕ) (m : Memory) (x : ℕ)
    → rsp + 56 < 2 ^ 64
    → (x < rsp) ⊎ (rsp + 56 ≤ x)
    → store_frame trampoline entry_fn rsp m x ≡ m x
unfolding store_frame
store_frame_outside trampoline entry_fn rsp m x h o = rw (
  write_ne _ (u64 (rsp + 6 * 8)) trampoline x (omega arith),
  write_ne _ (u64 (rsp + 5 * 8)) 0 x (omega arith),
  write_ne _ (u64 (rsp + 4 * 8)) 0 x (omega arith),
  write_ne _ (u64 (rsp + 3 * 8)) entry_fn x (omega arith),
  write_ne _ (u64 (rsp + 2 * 8)) 0 x (omega arith),
  write_ne _ (u64 (rsp + 1 * 8)) 0 x (omega arith),
  write_ne _ rsp 0 x (omega arith),
)

zeroed_outside :
    (m : Memory) (ptr len x : ℕ) → (x < ptr) ⊎ (ptr + len ≤ x) → zeroed m ptr len x ≡ m x
unfolding zeroed
zeroed_outside m ptr len x o = ground arith

-- What `ThreadControlBlock::new` makes: a Ready thread with the next id, whose context points to the
-- starting frame, which lies in its own stack and ends at the last multiple of 16 there.
pub record IsFresh (trampoline pid entry_fn ptr : ℕ) (m : Memory) (next_tid : ℕ) (c : Created)
    : Type 0 where
  pub frame : Holds c.memory c.tcb.context.rsp (fresh_frame trampoline entry_fn)
  pub from_start : ptr ≤ c.tcb.context.rsp
  pub to_end : c.tcb.context.rsp + 56 ≤ ptr + kernel_stack_size
  pub at_top : c.tcb.context.rsp + 56 ≡ (ptr + kernel_stack_size) / 16 * 16
  pub elsewhere : (x : ℕ) → (x < ptr) ⊎ (ptr + kernel_stack_size ≤ x) → c.memory x ≡ m x
  pub same_tid : c.tcb.tid ≡ next_tid
  pub is_new : c.tcb.state ≡ ready

-- For a stack that does not end past the address space, `ThreadControlBlock::new` stores the
-- starting frame of `entry_fn` in the thread's own stack, ending at the last multiple of 16 there,
-- points the context of the Ready thread to it, and changes no memory outside that stack.
pub new-IsFresh :
    (trampoline pid entry_fn ptr : ℕ) (m : Memory) (next_tid : ℕ)
    → ptr + kernel_stack_size < 2 ^ 64
    → IsFresh trampoline pid entry_fn ptr m next_tid (new trampoline pid entry_fn ptr m next_tid)
unfolding new
new-IsFresh trampoline pid entry_fn ptr m next_tid h = record {
  frame =
      store_frame-Holds trampoline entry_fn (initial_rsp ptr) _
        (omega (arith, initial_rsp_lem ptr h));
  from_start = omega (arith, initial_rsp_lem ptr h);
  to_end = omega (arith, initial_rsp_lem ptr h);
  at_top = initial_rsp_lem ptr h;
  elsewhere = λ x o.
      store_frame_outside trampoline entry_fn (initial_rsp ptr) _ x
        (omega (arith, initial_rsp_lem ptr h)) (omega (arith, initial_rsp_lem ptr h))
      ∙ zeroed_outside m ptr kernel_stack_size x o;
  same_tid = refl;
  is_new = refl;
}

-- The trampoline turns interrupts on and calls what `r12` holds.
trampoline_runs :
    (behind : ℕ) (c : Cpu)
    → 8 ≤ c.rsp
    → c.rsp < 2 ^ 64
    → (c' : Cpu) × (run (thread_trampoline behind) c ≡ done c')
      × (c'.rip ≡ c.r12)
      × (c'.interrupts ≡ true)
      × (c'.rsp ≡ c.rsp - 8)
      × (c'.memory c'.rsp ≡ behind)
unfolding thread_trampoline run exec
trampoline_runs behind c lo hi =
    (_, refl, refl, refl, omega arith, write_self _ (u64 (c.rsp + 2 ^ 64 - 8)) behind)

-- The first switch to a new thread starts its entry function: with the frame of `new` at `a`,
-- `context_switch` returns into the trampoline, which turns interrupts on and calls `entry_fn`, with
-- the stack pointer 8 below a multiple of 16, as the System V ABI wants it on entry to a function.
pub first_entry :
    (trampoline entry_fn behind b a : ℕ) (c : Cpu)
    → CanSwitch c b a (fresh_frame trampoline entry_fn)
    → (a + 56) % 16 ≡ 0
    → (c' c'' : Cpu) × (run context_switch c ≡ done c')
      × (c'.rip ≡ trampoline)
      × (run (thread_trampoline behind) c' ≡ done c'')
      × (c''.rip ≡ entry_fn)
      × (c''.interrupts ≡ true)
      × (c''.rsp % 16 ≡ 8)
first_entry trampoline entry_fn behind b a c h al =
    let (c', runs, w) = context_switch_lem c b a (fresh_frame trampoline entry_fn) h in
    let (c'', runs', at, on, sp, back) =
      trampoline_runs behind c' (omega (arith, w.stack)) (omega (arith, w.stack, h.new_room)) in
    (
      c',
      c'',
      runs,
      ap Frame.return_to w.registers,
      runs',
      at ∙ ap Frame.r12 w.registers,
      on,
      omega (arith, sp, w.stack),
    )
