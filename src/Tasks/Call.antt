-- ===== src/Tasks/Call.antt =====
-- `tick` once the scheduler has chosen a thread: the call of `context_switch` and what it leaves.
use native.Mathlib.Decide.{ℕ_discrete}
use rix_os.Base.{ℕ, ◌+◌, ◌-◌, ◌<◌, ◌≤◌, ◌≡◌, sym, subst, ◌∙◌, ◌≢◌, some, arith, length, done}
use rix_os.Machine.{Cpu, run}
use rix_os.Machine.Steps.{write_self, write_ne}
use rix_os.Context.{context_switch}
use rix_os.Context.Switch.{Holds, frame_of}
use rix_os.Context.Resume.{Outside, CanSwitch, HasSwitched, context_switch_lem}
use rix_os.Scheduler.{Scheduler, prepare_switch}
use rix_os.Scheduler.Switch.{Switched, Switched-IsValid}
use rix_os.Tasks.{Layout, Machine, calling, tick}
use rix_os.Tasks.Suspended.{
  Task, Tasks, suspend, suspend_self, suspend_ne, IsApart, Keeps, Suspends, Agrees, Keeps-agree,
  Holds-Agrees,
}

-- The current thread's stack has room for the return address and six registers.
pub record HasRoom (l : Layout) (s : Machine) : Type 0 where
  pub above : l.low s.sched.current + 56 ≤ s.cpu.rsp
  pub below : s.cpu.rsp ≤ l.high s.sched.current

-- The current thread as its code knows it at a call.
abbrev pub task_of : (back : ℕ) → Cpu → Task
task_of back c = record { frame = frame_of c back; sp = c.rsp }

-- The processor runs this thread.
pub record Runs (c : Cpu) (t : Task) : Type 0 where
  pub registers : frame_of c c.rip ≡ t.frame
  pub stack_pointer : c.rsp ≡ t.sp

module _ (l : Layout) (back : ℕ) (s : Machine) (ts : Tasks) (j : ℕ) (h : Suspends l s ts)
    (room : HasRoom l s) (lt : j < length s.sched.threads) (ne : j ≢ s.sched.current) where
  -- The call of `context_switch`, and the frame's place.
  abbrev call : Cpu
  call = calling back (l.context s.sched.current) (l.context j) s.cpu

  abbrev base : ℕ
  base = s.cpu.rsp - 56

  abbrev next_kept : Keeps l s.cpu.memory j (ts j)
  next_kept = h.kept j lt ne

  call_stack : call.rsp ≡ base + 48
  call_stack =
      omega (arith, room.above, room.below, h.apart.bounded s.sched.current h.valid.in_range)

  call_elsewhere : (x : ℕ) → x ≢ base + 48 → call.memory x ≡ s.cpu.memory x
  call_elsewhere x nx = write_ne s.cpu.memory call.rsp back x (λ e. nx (e ∙ call_stack))

  -- A word that is not on the current thread's stack.
  call-Outside :
      (x : ℕ)
      → Outside x (l.low s.sched.current) (l.high s.sched.current)
      → call.memory x ≡ s.cpu.memory x
  call-Outside x o = call_elsewhere x (omega (arith, o, room.above, room.below))

  -- The calls leave the threads other than the current one as they are.
  call-Agrees :
      (k : ℕ)
      → k < length s.sched.threads
      → k ≢ s.sched.current
      → Agrees l s.cpu.memory call.memory k
  call-Agrees k lk nk = record {
    same_context = call-Outside _ (h.apart.outside k s.sched.current lk h.valid.in_range);
    same_stack = λ x p q. call_elsewhere x (
        omega
          (arith, room.above, room.below, h.apart.stacks k s.sched.current lk h.valid.in_range nk));
  }

  call-CanSwitch : CanSwitch call base next_kept.at (ts j).frame
  call-CanSwitch =
      let agrees = call-Agrees j lt ne in
      let own = h.apart.outside s.sched.current s.sched.current h.valid.in_range h.valid.in_range in
      let apart = h.apart.stacks j s.sched.current lt h.valid.in_range ne in
      record {
        stack = call_stack;
        room =
            omega (arith, room.above, room.below, h.apart.bounded s.sched.current h.valid.in_range);
        old_slot = omega (arith, own, room.above, room.below);
        new_slot =
            omega (
              arith,
              h.apart.outside j s.sched.current lt h.valid.in_range,
              room.above,
              room.below,
            );
        slots = h.apart.contexts j s.sched.current lt h.valid.in_range ne;
        new_rsp = agrees.same_context ∙ next_kept.pointer;
        new_room = omega (arith, next_kept.below, h.apart.bounded j lt);
        frame = Holds-Agrees agrees next_kept;
        apart = omega (arith, apart, room.above, room.below, next_kept.above, next_kept.below);
        slot_apart = omega (
          arith,
          h.apart.outside s.sched.current j h.valid.in_range lt,
          next_kept.above,
          next_kept.below,
        );
      }

  switched :
      (c' : Cpu) × (run context_switch call ≡ done c')
      × HasSwitched call base next_kept.at (ts j).frame c'
  switched = context_switch_lem call base next_kept.at (ts j).frame call-CanSwitch

  call_return : call.memory call.rsp ≡ back
  call_return = write_self s.cpu.memory call.rsp back

  -- The memory after the switch.
  after_Keeps_old :
      (c' : Cpu)
      → HasSwitched call base next_kept.at (ts j).frame c'
      → Keeps l c'.memory s.sched.current (task_of back s.cpu)
  after_Keeps_old c' w = record {
    at = base;
    pointer = w.saved_rsp;
    held = subst (λ r. Holds c'.memory base (frame_of s.cpu r)) call_return w.saved;
    above = omega (arith, room.above);
    below = omega (arith, room.above, room.below);
    stack_pointer = omega (arith, room.above);
  }

  after_Agrees :
      (c' : Cpu) (k : ℕ)
      → HasSwitched call base next_kept.at (ts j).frame c'
      → k < length s.sched.threads
      → k ≢ s.sched.current
      → Agrees l s.cpu.memory c'.memory k
  after_Agrees c' k w lk nk =
      let before = call-Agrees k lk nk in
      let own = h.apart.outside k s.sched.current lk h.valid.in_range in
      let context_own = h.apart.outside s.sched.current k h.valid.in_range lk in
      let apart = h.apart.stacks k s.sched.current lk h.valid.in_range nk in
      record {
        same_context =
            w.elsewhere (l.context k) (omega (arith, own, room.above, room.below))
              (h.apart.contexts k s.sched.current lk h.valid.in_range nk)
            ∙ before.same_context;
        same_stack = λ x p q.
            w.elsewhere x (omega (arith, apart, room.above, room.below))
              (omega (arith, context_own))
            ∙ before.same_stack x p q;
      }

  after_Keeps :
      (c' : Cpu) (k : ℕ)
      → HasSwitched call base next_kept.at (ts j).frame c'
      → k < length s.sched.threads
      → k ≢ j
      → Keeps l c'.memory k (suspend s.sched.current (task_of back s.cpu) ts k)
  after_Keeps c' k w lk nk = elim (ℕ_discrete k s.sched.current) [
    | yes e ↦ rw e (
        subst (Keeps l c'.memory s.sched.current)
          (sym (suspend_self s.sched.current (task_of back s.cpu) ts)) (after_Keeps_old c' w))
    | no nc ↦
        subst (Keeps l c'.memory k) (sym (suspend_ne s.sched.current k (task_of back s.cpu) ts nc))
          (Keeps-agree (after_Agrees c' k w lk nc) (h.kept k lk nc))
  ]

  switched-Runs : (c' : Cpu) → HasSwitched call base next_kept.at (ts j).frame c' → Runs c' (ts j)
  switched-Runs c' w = record {
    registers = w.registers;
    stack_pointer = w.stack ∙ sym next_kept.stack_pointer;
  }

  -- The whole tick, once the scheduler has chosen place `j`.
  pub tick_to :
      (sched : Scheduler)
      → prepare_switch s.sched ≡ done (sched, some (s.sched.current, j))
      → Switched s.sched j sched
      → (c' : Cpu) × (tick l back s ≡ done (record { sched = sched; cpu = c' }))
        × Runs c' (ts j)
        × Suspends l
            (record { sched = sched; cpu = c' })
            (suspend s.sched.current (task_of back s.cpu) ts)
  unfolding tick
  tick_to sched e sw =
      let (c', runs, w) = switched in
      (
        c',
        rw (e, runs),
        switched-Runs c' w,
        record {
          valid = Switched-IsValid j h.valid lt sw;
          apart = subst (IsApart l) (sym sw.same_length) h.apart;
          kept = λ k lk nk.
              after_Keeps c' k w (omega (arith, sw.same_length)) (λ e. nk (e ∙ sym sw.current));
        },
      )
