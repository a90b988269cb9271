-- ===== src/Context/Resume.antt =====
-- `context_switch` as a whole: one switch, and the way back.
use rix_os.Base.{ℕ, ◌+◌, ◌^◌, ◌<◌, ◌≤◌, ◌≡◌, refl, sym, subst, ◌∙◌, ◌≢◌, ◌⊎◌, arith, done, done_eq}
use rix_os.Machine.{Cpu, Memory, write, run}
use rix_os.Machine.Steps.{write_self, write_ne, run-save, run-load}
use rix_os.Context.{context_switch}
use rix_os.Context.Switch.{
  Frame, Holds, frame_of, resumed, pushed, run-pushes, pushed_outside, pushed-Holds, run-pops,
}

-- A word at `x` does not overlap the words from `lo` up to `hi`.
abbrev pub Outside : (x lo hi : ℕ) → Type 0
Outside x lo hi = (x + 8 ≤ lo) ⊎ (hi ≤ x)

pub Holds-agree :
    {m m' : Memory} {a : ℕ} {f : Frame}
    → ((x : ℕ) → a ≤ x → x < a + 56 → m' x ≡ m x)
    → Holds m a f
    → Holds m' a f
Holds-agree {a = a} same h = record {
  at_r15 = same a (omega arith) (omega arith) ∙ h.at_r15;
  at_r14 = same (a + 8) (omega arith) (omega arith) ∙ h.at_r14;
  at_r13 = same (a + 16) (omega arith) (omega arith) ∙ h.at_r13;
  at_r12 = same (a + 24) (omega arith) (omega arith) ∙ h.at_r12;
  at_rbp = same (a + 32) (omega arith) (omega arith) ∙ h.at_rbp;
  at_rbx = same (a + 40) (omega arith) (omega arith) ∙ h.at_rbx;
  at_return = same (a + 48) (omega arith) (omega arith) ∙ h.at_return;
}

-- The processor is about to run `context_switch`: its own stack has room for six words down to `b`,
-- with the return address above them, and the frame `f` of the other task lies at `a`. `rdi` and
-- `rsi` point to the two contexts. None of these overlap.
pub record CanSwitch (c : Cpu) (b a : ℕ) (f : Frame) : Type 0 where
  pub stack : c.rsp ≡ b + 48
  pub room : b + 56 < 2 ^ 64
  pub old_slot : Outside c.rdi b (b + 56)
  pub new_slot : Outside c.rsi b (b + 56)
  pub slots : c.rsi ≢ c.rdi
  pub new_rsp : c.memory c.rsi ≡ a
  pub new_room : a + 56 < 2 ^ 64
  pub frame : Holds c.memory a f
  pub apart : (a + 56 ≤ b) ⊎ (b + 56 ≤ a)
  pub slot_apart : Outside c.rdi a (a + 56)

-- What `context_switch` leads to.
pub record HasSwitched (c : Cpu) (b a : ℕ) (f : Frame) (c' : Cpu) : Type 0 where
  pub registers : frame_of c' c'.rip ≡ f
  pub stack : c'.rsp ≡ a + 56
  pub saved : Holds c'.memory b (frame_of c (c.memory c.rsp))
  pub saved_rsp : c'.memory c.rdi ≡ b
  pub same_interrupts : c'.interrupts ≡ c.interrupts
  pub elsewhere : (x : ℕ) → (x < b) ⊎ (b + 48 ≤ x) → x ≢ c.rdi → c'.memory x ≡ c.memory x

-- The memory once the stack pointer is saved.
abbrev saved_memory : Cpu → ℕ → Memory
saved_memory c b = write (pushed c b) c.rdi b

saved_elsewhere :
    (c : Cpu) (b x : ℕ) → (x < b) ⊎ (b + 48 ≤ x) → x ≢ c.rdi → saved_memory c b x ≡ c.memory x
saved_elsewhere c b x o ne = write_ne _ c.rdi b x ne ∙ pushed_outside c b x o

context_switch_runs :
    (c : Cpu) (b a : ℕ) (f : Frame)
    → CanSwitch c b a f
    → run context_switch c ≡ done (resumed (record c { memory = saved_memory c b }) f (a + 56))
unfolding context_switch
context_switch_runs c b a f h =
    run-pushes _ c b h.stack (omega (arith, h.room))
    ∙ run-save _ _
    ∙ run-load _ _
    ∙ run-pops _ a f (saved_elsewhere c b c.rsi (omega (arith, h.new_slot)) h.slots ∙ h.new_rsp)
        h.new_room
        (Holds-agree
          (λ x p q. saved_elsewhere c b x (omega (arith, h.apart)) (omega (arith, h.slot_apart)))
          h.frame)

-- `context_switch` stores the callee-saved registers and the return address of the old task as a
-- frame at `b` and its address in the old context, and goes on with the registers, the stack and the
-- return address of the new task. No other word of memory changes.
pub context_switch_lem :
    (c : Cpu) (b a : ℕ) (f : Frame)
    → CanSwitch c b a f
    → (c' : Cpu) × (run context_switch c ≡ done c') × HasSwitched c b a f c'
context_switch_lem c b a f h = (
  _,
  context_switch_runs c b a f h,
  record {
    registers = refl;
    stack = refl;
    saved =
        Holds-agree (λ x p q. write_ne _ c.rdi b x (omega (arith, h.old_slot)))
          (subst (λ r. Holds (pushed c b) b (frame_of c (c.memory r))) (sym h.stack)
            (pushed-Holds c b));
    saved_rsp = write_self _ c.rdi b;
    same_interrupts = refl;
    elsewhere = saved_elsewhere c b;
  },
)

-- Between the two switches nobody writes to the suspended task's frame or context.
pub record LeavesAlone (c' d : Cpu) (slot b : ℕ) : Type 0 where
  pub slot_kept : d.memory slot ≡ c'.memory slot
  pub frame_kept : (x : ℕ) → b ≤ x → x < b + 56 → d.memory x ≡ c'.memory x

-- A task that is switched out and later switched back in goes on behind its call of
-- `context_switch`, with its callee-saved registers and its stack pointer as they were at the call:
-- for any state `d` of the processor in between that leaves the task's frame and context alone.
pub context_switch_back :
    (c c' d : Cpu) (b a e : ℕ) (f : Frame)
    → CanSwitch c b a f
    → run context_switch c ≡ done c'
    → LeavesAlone c' d c.rdi b
    → d.rsi ≡ c.rdi
    → d.rsp ≡ e + 48
    → e + 56 < 2 ^ 64
    → Outside d.rdi e (e + 56)
    → Outside d.rsi e (e + 56)
    → d.rsi ≢ d.rdi
    → (b + 56 ≤ e) ⊎ (e + 56 ≤ b)
    → Outside d.rdi b (b + 56)
    → (d' : Cpu) × (run context_switch d ≡ done d')
      × (frame_of d' d'.rip ≡ frame_of c (c.memory c.rsp))
      × (d'.rsp ≡ c.rsp + 8)
context_switch_back c c' d b a e f h runs kept at_c sp room o n ne ap sl =
    let (k, runs', w) = context_switch_lem c b a f h in
    let same : k ≡ c' = done_eq (sym runs' ∙ runs) in
    let w' = subst (HasSwitched c b a f) same w in
    let (d', runs'', w'') = context_switch_lem d e b (frame_of c (c.memory c.rsp)) (record {
      stack = sp;
      room = room;
      old_slot = o;
      new_slot = n;
      slots = ne;
      new_rsp = rw at_c (kept.slot_kept ∙ w'.saved_rsp);
      new_room = h.room;
      frame = Holds-agree kept.frame_kept w'.saved;
      apart = ap;
      slot_apart = sl;
    }) in
    (d', runs'', w''.registers, w''.stack ∙ omega (arith, h.stack))
