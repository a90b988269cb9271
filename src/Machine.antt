-- ===== src/Machine.antt =====
-- The processor as far as the naked assembly of kernel/src/context.rs and kernel/src/scheduler.rs
-- uses it: the registers, the interrupt flag, and a memory of 64-bit words at their addresses.
-- A word is only ever read where it was written, so partly overlapping words do not arise.
pub mod Steps
use rix_os.Base.{
  ℕ, ◌+◌, ◌-◌, ◌^◌, Bool, true, List, [], ◌∷◌, ◌==◌, if◌then◌else◌, Exec, done, panic, u64,
}

abbrev pub Memory : Type 0
Memory = ℕ → ℕ

unfoldable pub write : Memory → ℕ → ℕ → Memory
write m a v b = if b == a then v else m b

pub record Cpu : Type 0 where
  pub rbx : ℕ
  pub rbp : ℕ
  pub r12 : ℕ
  pub r13 : ℕ
  pub r14 : ℕ
  pub r15 : ℕ
  pub rsp : ℕ
  pub rdi : ℕ
  pub rsi : ℕ
  pub rip : ℕ
  pub interrupts : Bool
  pub memory : Memory

-- The registers that are pushed and popped.
pub data Reg : Type 0 where
  rbx rbp r12 r13 r14 r15 : Reg

pub data Instr : Type 0 where
  push pop : Reg → Instr
  -- `mov [rdi], rsp` and `mov rsp, [rsi]`
  mov_rdi_rsp mov_rsp_rsi : Instr
  -- `call r12`, with the address of the instruction behind it
  call_r12 : ℕ → Instr
  ret sti ud2 : Instr

abbrev pub get_reg : Reg → Cpu → ℕ
get_reg rbx c = c.rbx
get_reg rbp c = c.rbp
get_reg r12 c = c.r12
get_reg r13 c = c.r13
get_reg r14 c = c.r14
get_reg r15 c = c.r15

abbrev pub set_reg : Reg → ℕ → Cpu → Cpu
set_reg rbx v c = record c { rbx = v }
set_reg rbp v c = record c { rbp = v }
set_reg r12 v c = record c { r12 = v }
set_reg r13 v c = record c { r13 = v }
set_reg r14 v c = record c { r14 = v }
set_reg r15 v c = record c { r15 = v }

abbrev pub push_word : ℕ → Cpu → Cpu
push_word v c =
    let sp = u64 (c.rsp + 2 ^ 64 - 8) in record c { rsp = sp; memory = write c.memory sp v }

-- Where an instruction leads: to the next one, elsewhere, or to an exception.
pub data Flow : Type 0 where
  onward jump : Cpu → Flow
  fault : Flow

unfoldable pub exec : Instr → Cpu → Flow
exec (push r) c = onward (push_word (get_reg r c) c)
exec (pop r) c = onward (set_reg r (c.memory c.rsp) (record c { rsp = u64 (c.rsp + 8) }))
exec mov_rdi_rsp c = onward (record c { memory = write c.memory c.rdi c.rsp })
exec mov_rsp_rsi c = onward (record c { rsp = c.memory c.rsi })
exec (call_r12 behind) c = let d = push_word behind c in jump (record d { rip = c.r12 })
exec ret c = jump (record c { rip = c.memory c.rsp; rsp = u64 (c.rsp + 8) })
exec sti c = onward (record c { interrupts = true })
exec ud2 c = fault

-- A piece of straight code, up to its first jump.
unfoldable pub run : List Instr → Cpu → Exec Cpu
run [] c = done c
run (i ∷ is) c = elim (exec i c) [ onward d ↦ run is d | jump d ↦ done d | fault ↦ panic ]
