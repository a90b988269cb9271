-- ===== src/Context.antt =====
-- kernel/src/context.rs: the switch from one kernel stack to another.
pub mod Resume
pub mod Switch
use rix_os.Base.{List, [], ◌∷◌}
use rix_os.Machine.{Instr, Reg, push, pop, mov_rdi_rsp, mov_rsp_rsi, ret}

-- `context_switch`, instruction by instruction.
unfoldable pub context_switch : List Instr
context_switch =
    push Reg.rbx
    ∷ push Reg.rbp
    ∷ push Reg.r12
    ∷ push Reg.r13
    ∷ push Reg.r14
    ∷ push Reg.r15
    ∷ mov_rdi_rsp
    ∷ mov_rsp_rsi
    ∷ pop Reg.r15
    ∷ pop Reg.r14
    ∷ pop Reg.r13
    ∷ pop Reg.r12
    ∷ pop Reg.rbp
    ∷ pop Reg.rbx
    ∷ ret
    ∷ []
