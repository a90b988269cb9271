-- ===== src/Machine/Steps.antt =====
-- One lemma for each instruction, for a stack pointer that does not wrap.
use rix_os.Base.{ℕ, ◌+◌, ◌-◌, ◌^◌, ◌<◌, ◌≡◌, refl, ◌≢◌, List, ◌∷◌, arith, done, u64}
use rix_os.Machine.{
  Cpu, Memory, write, Reg, Instr, push, pop, mov_rdi_rsp, mov_rsp_rsi, ret, get_reg, set_reg, run,
  exec,
}

pub write_self : (m : Memory) (a v : ℕ) → write m a v a ≡ v
unfolding write
write_self m a v = ground arith

pub write_ne : (m : Memory) (a v b : ℕ) → b ≢ a → write m a v b ≡ m b
unfolding write
write_ne m a v b h = ground arith

pub run-push :
    (r : Reg) (is : List Instr) (c : Cpu) (a : ℕ)
    → c.rsp ≡ a + 8
    → a + 8 < 2 ^ 64
    → run (push r ∷ is) c ≡ run is (record c { rsp = a; memory = write c.memory a (get_reg r c) })
unfolding run exec
run-push r is c a e h = let eq : u64 (c.rsp + 2 ^ 64 - 8) ≡ a = omega arith in rw eq

pub run-pop :
    (r : Reg) (is : List Instr) (c : Cpu) (a b : ℕ)
    → c.rsp ≡ a
    → b ≡ a + 8
    → b < 2 ^ 64
    → run (pop r ∷ is) c ≡ run is (set_reg r (c.memory a) (record c { rsp = b }))
unfolding run exec
run-pop r is c a b e f h = let eq : u64 (c.rsp + 8) ≡ b = omega arith in rw (eq, e)

pub run-ret :
    (is : List Instr) (c : Cpu) (a b : ℕ)
    → c.rsp ≡ a
    → b ≡ a + 8
    → b < 2 ^ 64
    → run (ret ∷ is) c ≡ done (record c { rip = c.memory a; rsp = b })
unfolding run exec
run-ret is c a b e f h = let eq : u64 (c.rsp + 8) ≡ b = omega arith in rw (eq, e)

pub run-save :
    (is : List Instr) (c : Cpu)
    → run (mov_rdi_rsp ∷ is) c ≡ run is (record c { memory = write c.memory c.rdi c.rsp })
unfolding run exec
run-save is c = refl

pub run-load :
    (is : List Instr) (c : Cpu)
    → run (mov_rsp_rsi ∷ is) c ≡ run is (record c { rsp = c.memory c.rsi })
unfolding run exec
run-load is c = refl
