-- ===== src/Tasks/Spawn.antt =====
-- `spawn_thread` on the whole machine: the new thread is suspended at its start.
use native.Mathlib.Decide.{ℕ_discrete}
use rix_os.Base.{
  ℕ, ◌+◌, ◌*◌, ◌/◌, ◌^◌, ◌<◌, ◌≡◌, sym, subst, ◌∙◌, [], ◌∷◌, arith, length, length-append,
}
use rix_os.Machine.{Memory, write}
use rix_os.Machine.Steps.{write_self, write_ne}
use rix_os.Context.Resume.{Holds-agree}
use rix_os.Scheduler.{Scheduler, ThreadControlBlock, add_thread}
use rix_os.Scheduler.Steps.{add_thread-IsValid}
use rix_os.Thread
use rix_os.Thread.{kernel_stack_size, Created}
use rix_os.Thread.Fresh.{fresh_frame, IsFresh, new-IsFresh}
use rix_os.Tasks.{Layout, Machine, spawn_thread}
use rix_os.Tasks.Suspended.{
  Task, Tasks, suspend, suspend_self, suspend_ne, IsApart, Keeps, Suspends, Agrees, Keeps-agree,
}

-- The next place's stack is the allocated one, apart from all that is there.
pub record CanSpawn (l : Layout) (ptr : ℕ) (s : Machine) : Type 0 where
  pub start : l.low (length s.sched.threads) ≡ ptr
  pub end' : l.high (length s.sched.threads) ≡ ptr + kernel_stack_size
  pub apart : IsApart l (length s.sched.threads + 1)
  pub capacity : length s.sched.threads < 2 ^ 63

-- A thread that starts `entry_fn` through the trampoline, on its aligned stack.
abbrev pub fresh_task : (trampoline entry_fn ptr : ℕ) → Task
fresh_task trampoline entry_fn ptr = record {
  frame = fresh_frame trampoline entry_fn;
  sp = (ptr + kernel_stack_size) / 16 * 16;
}

pub threads-length :
    (t : ThreadControlBlock) (s : Scheduler)
    → length (add_thread t s).threads ≡ length s.threads + 1
unfolding add_thread
threads-length t s = length-append s.threads (t ∷ [])

module _ (l : Layout) (trampoline pid entry_fn ptr next_tid : ℕ) (s : Machine) (ts : Tasks)
    (h : Suspends l s ts) (can : CanSpawn l ptr s) where
  abbrev n : ℕ
  n = length s.sched.threads

  abbrev made : Created
  made = Thread.new trampoline pid entry_fn ptr s.cpu.memory next_tid

  abbrev after : Memory
  after = write made.memory (l.context n) made.tcb.context.rsp

  abbrev fresh : IsFresh trampoline pid entry_fn ptr s.cpu.memory next_tid made
  fresh =
      new-IsFresh trampoline pid entry_fn ptr s.cpu.memory next_tid
        (omega (arith, can.end', can.apart.bounded n (omega arith)))

  new-Keeps : Keeps l after n (fresh_task trampoline entry_fn ptr)
  new-Keeps =
      let o = can.apart.outside n n (omega arith) (omega arith) in
      record {
        at = made.tcb.context.rsp;
        pointer = write_self made.memory (l.context n) made.tcb.context.rsp;
        held =
            Holds-agree
              (λ x p q.
                write_ne made.memory (l.context n) made.tcb.context.rsp x
                  (omega (arith, o, can.start, can.end', fresh.from_start, fresh.to_end)))
              fresh.frame;
        above = omega (arith, can.start, fresh.from_start);
        below = omega (arith, can.end', fresh.to_end);
        stack_pointer = sym fresh.at_top;
      }

  others-Agrees : (k : ℕ) → k < n → Agrees l s.cpu.memory after k
  others-Agrees k lk =
      let own = can.apart.outside k n (omega arith) (omega arith) in
      let theirs = can.apart.outside n k (omega arith) (omega arith) in
      let stacks = can.apart.stacks k n (omega arith) (omega arith) (omega arith) in
      record {
        same_context =
            write_ne made.memory (l.context n) made.tcb.context.rsp (l.context k)
              (can.apart.contexts k n (omega arith) (omega arith) (omega arith))
            ∙ fresh.elsewhere (l.context k) (omega (arith, own, can.start, can.end'));
        same_stack = λ x p q.
            write_ne made.memory (l.context n) made.tcb.context.rsp x (omega (arith, theirs))
            ∙ fresh.elsewhere x (omega (arith, stacks, can.start, can.end'));
      }

  -- A spawned thread is suspended at its start, and no other suspended thread is touched.
  pub spawn-Suspends :
      Suspends l
        (spawn_thread l trampoline pid entry_fn ptr next_tid s)
        (suspend n (fresh_task trampoline entry_fn ptr) ts)
  unfolding spawn_thread add_thread
  spawn-Suspends = record {
    valid = add_thread-IsValid s.sched made.tcb h.valid (ground (arith, fresh.is_new)) can.capacity;
    apart = subst (IsApart l) (sym (threads-length made.tcb s.sched)) can.apart;
    kept = λ k lk nk. elim (ℕ_discrete k n) [
      | yes e ↦ rw e (
          subst (Keeps l after n) (sym (suspend_self n (fresh_task trampoline entry_fn ptr) ts))
            new-Keeps)
      | no ne ↦
          let lt : k < n = omega (arith, threads-length made.tcb s.sched) in
          subst (Keeps l after k) (sym (suspend_ne n k (fresh_task trampoline entry_fn ptr) ts ne))
            (Keeps-agree (others-Agrees k lt) (h.kept k lt nk))
    ];
  }

  pub spawn-length :
      length (spawn_thread l trampoline pid entry_fn ptr next_tid s).sched.threads ≡ n + 1
  unfolding spawn_thread
  spawn-length = threads-length made.tcb s.sched
