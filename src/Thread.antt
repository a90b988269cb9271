-- ===== src/Thread.antt =====
-- kernel/src/scheduler.rs: `ThreadControlBlock::new`, `NEXT_TID` and `thread_trampoline`.
pub mod Fresh
use rix_os.Base.{ℕ, ◌+◌, ◌-◌, ◌*◌, ◌^◌, bit_and, List, [], ◌∷◌, ◌&&◌, leb, if◌then◌else◌, u64}
use rix_os.Machine.{Memory, write, Instr, sti, call_r12, ud2}
use rix_os.Scheduler.{ready, ThreadControlBlock}

abbrev pub kernel_stack_size : ℕ
kernel_stack_size = 4096 * 4

-- `NEXT_TID` before the first thread is made.
abbrev pub first_tid : ℕ
first_tid = 1

-- `alloc::vec![0u8; len]` at `ptr`: the words of the new buffer are 0.
unfoldable pub zeroed : Memory → (ptr len : ℕ) → Memory
zeroed m ptr len b = if leb ptr b && leb (b + 8) (ptr + len) then 0 else m b

-- A new thread, the memory with its stack, and `NEXT_TID` after it.
pub record Created : Type 0 where
  pub tcb : ThreadControlBlock
  pub memory : Memory
  pub next_tid : ℕ

-- `kernel_stack.as_ptr() + KERNEL_STACK_SIZE`, rounded down to 16
unfoldable pub stack_top : ℕ → ℕ
stack_top ptr = bit_and (u64 (ptr + kernel_stack_size)) (2 ^ 64 - 1 - 0xF)

unfoldable pub initial_rsp : ℕ → ℕ
initial_rsp ptr = u64 (stack_top ptr + 2 ^ 64 - 7 * 8)

-- The seven words that `new` stores from `rsp` up.
unfoldable pub store_frame : (trampoline entry_fn rsp : ℕ) → Memory → Memory
store_frame trampoline entry_fn rsp m =
    let m = write m rsp 0 in
    let m = write m (u64 (rsp + 1 * 8)) 0 in
    let m = write m (u64 (rsp + 2 * 8)) 0 in
    let m = write m (u64 (rsp + 3 * 8)) entry_fn in
    let m = write m (u64 (rsp + 4 * 8)) 0 in
    let m = write m (u64 (rsp + 5 * 8)) 0 in write m (u64 (rsp + 6 * 8)) trampoline

-- `ThreadControlBlock::new`. The address of `thread_trampoline` and the place `ptr` that the
-- allocator gives the stack come from outside.
unfoldable pub new :
    (trampoline : ℕ) → (pid entry_fn : ℕ) → (ptr : ℕ) → Memory → (next_tid : ℕ) → Created
new trampoline pid entry_fn ptr m next_tid =
    let rsp = initial_rsp ptr in
    record {
      tcb = record {
        tid = next_tid;
        pid = pid;
        state = ready;
        context = record { rsp = rsp };
        kernel_stack = record { ptr = ptr; len = kernel_stack_size };
      };
      memory = store_frame trampoline entry_fn rsp (zeroed m ptr kernel_stack_size);
      next_tid = u64 (next_tid + 1);
    }

-- `thread_trampoline`; `behind` is the address of its `ud2`.
unfoldable pub thread_trampoline : ℕ → List Instr
thread_trampoline behind = sti ∷ call_r12 behind ∷ ud2 ∷ []
