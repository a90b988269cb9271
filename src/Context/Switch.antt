-- ===== src/Context/Switch.antt =====
-- What `context_switch` saves and what it restores.
use rix_os.Base.{ℕ, ◌+◌, ◌^◌, ◌<◌, ◌≤◌, ◌≡◌, refl, ◌∙◌, ◌⊎◌, List, [], ◌∷◌, arith, done}
use rix_os.Machine.{Cpu, Memory, write, Reg, Instr, push, pop, ret, run}
use rix_os.Machine.Steps.{write_ne, run-push, run-pop, run-ret}

-- The seven words of a suspended task, from its saved stack pointer up.
pub record Frame : Type 0 where
  pub r15 : ℕ
  pub r14 : ℕ
  pub r13 : ℕ
  pub r12 : ℕ
  pub rbp : ℕ
  pub rbx : ℕ
  pub return_to : ℕ

-- The frame lies in memory from `a` on.
pub record Holds (m : Memory) (a : ℕ) (f : Frame) : Type 0 where
  pub at_r15 : m a ≡ f.r15
  pub at_r14 : m (a + 8) ≡ f.r14
  pub at_r13 : m (a + 16) ≡ f.r13
  pub at_r12 : m (a + 24) ≡ f.r12
  pub at_rbp : m (a + 32) ≡ f.rbp
  pub at_rbx : m (a + 40) ≡ f.rbx
  pub at_return : m (a + 48) ≡ f.return_to

-- What a task keeps across a switch: its callee-saved registers and where it goes on.
abbrev pub frame_of : Cpu → ℕ → Frame
frame_of c return_to = record {
  r15 = c.r15;
  r14 = c.r14;
  r13 = c.r13;
  r12 = c.r12;
  rbp = c.rbp;
  rbx = c.rbx;
  return_to = return_to;
}

-- The registers that a resumed task has.
abbrev pub resumed : Cpu → Frame → ℕ → Cpu
resumed c f sp = record c {
  r15 = f.r15;
  r14 = f.r14;
  r13 = f.r13;
  r12 = f.r12;
  rbp = f.rbp;
  rbx = f.rbx;
  rsp = sp;
  rip = f.return_to;
}

-- The memory after the six pushes, `b` being where the stack pointer ends.
unfoldable pub pushed : Cpu → ℕ → Memory
pushed c b =
    write
      (write
        (write (write (write (write c.memory (b + 40) c.rbx) (b + 32) c.rbp) (b + 24) c.r12)
          (b + 16) c.r13)
        (b + 8) c.r14)
      b c.r15

pub run-pushes :
    (is : List Instr) (c : Cpu) (b : ℕ)
    → c.rsp ≡ b + 48
    → b + 48 < 2 ^ 64
    → run
        (push Reg.rbx
          ∷ push Reg.rbp
          ∷ push Reg.r12
          ∷ push Reg.r13
          ∷ push Reg.r14
          ∷ push Reg.r15
          ∷ is)
        c
      ≡ run is (record c { rsp = b; memory = pushed c b })
unfolding pushed
run-pushes is c b e h =
    run-push Reg.rbx _ c (b + 40) (omega arith) (omega arith)
    ∙ run-push Reg.rbp _ _ (b + 32) (omega arith) (omega arith)
    ∙ run-push Reg.r12 _ _ (b + 24) (omega arith) (omega arith)
    ∙ run-push Reg.r13 _ _ (b + 16) (omega arith) (omega arith)
    ∙ run-push Reg.r14 _ _ (b + 8) (omega arith) (omega arith)
    ∙ run-push Reg.r15 is _ b (omega arith) (omega arith)

-- The words outside the pushed ones are as before.
pub pushed_outside : (c : Cpu) (b x : ℕ) → (x < b) ⊎ (b + 48 ≤ x) → pushed c b x ≡ c.memory x
unfolding pushed
pushed_outside c b x h = rw (
  write_ne _ b c.r15 x (omega arith),
  write_ne _ (b + 8) c.r14 x (omega arith),
  write_ne _ (b + 16) c.r13 x (omega arith),
  write_ne _ (b + 24) c.r12 x (omega arith),
  write_ne _ (b + 32) c.rbp x (omega arith),
  write_ne _ (b + 40) c.rbx x (omega arith),
)

pub pushed-Holds : (c : Cpu) (b : ℕ) → Holds (pushed c b) b (frame_of c (c.memory (b + 48)))
unfolding pushed write
pushed-Holds c b = record {
  at_r15 = ground arith;
  at_r14 = ground arith;
  at_r13 = ground arith;
  at_r12 = ground arith;
  at_rbp = ground arith;
  at_rbx = ground arith;
  at_return = ground arith;
}

pub run-pops :
    (c : Cpu) (a : ℕ) (f : Frame)
    → c.rsp ≡ a
    → a + 56 < 2 ^ 64
    → Holds c.memory a f
    → run
        (pop Reg.r15
          ∷ pop Reg.r14
          ∷ pop Reg.r13
          ∷ pop Reg.r12
          ∷ pop Reg.rbp
          ∷ pop Reg.rbx
          ∷ ret
          ∷ [])
        c
      ≡ done (resumed c f (a + 56))
run-pops c a f e h m =
    run-pop Reg.r15 _ c a (a + 8) e refl (omega arith)
    ∙ run-pop Reg.r14 _ _ (a + 8) (a + 16) refl (omega arith) (omega arith)
    ∙ run-pop Reg.r13 _ _ (a + 16) (a + 24) refl (omega arith) (omega arith)
    ∙ run-pop Reg.r12 _ _ (a + 24) (a + 32) refl (omega arith) (omega arith)
    ∙ run-pop Reg.rbp _ _ (a + 32) (a + 40) refl (omega arith) (omega arith)
    ∙ run-pop Reg.rbx _ _ (a + 40) (a + 48) refl (omega arith) (omega arith)
    ∙ run-ret _ _ (a + 48) (a + 56) refl (omega arith) (omega arith)
    ∙ rw (m.at_r15, m.at_r14, m.at_r13, m.at_r12, m.at_rbp, m.at_rbx, m.at_return)
