-- ===== src/Tasks.antt =====
-- `tick` of kernel/src/scheduler.rs with the `context_switch` of kernel/src/context.rs that it
-- calls: the scheduler and the processor together. The contexts are words of the memory here.
pub mod Suspended
pub mod Call
pub mod Switch
pub mod History
pub mod Spawn
pub mod Started
pub mod Fair
use rix_os.Base.{ℕ, ◌+◌, ◌-◌, ◌^◌, Option, none, some, Exec, done, ◌>>=◌, length}
use rix_os.Machine.{Cpu, write, push_word, run}
use rix_os.Context.{context_switch}
use rix_os.Scheduler.{Scheduler, prepare_switch, add_thread, mark_exited}
use rix_os.Thread

-- Where the parts of the thread at each place of `threads` lie: the word of its `context`, and its
-- kernel stack, from `low` up to `high`.
pub record Layout : Type 0 where
  pub context : ℕ → ℕ
  pub low : ℕ → ℕ
  pub high : ℕ → ℕ

pub record Machine : Type 0 where
  pub sched : Scheduler
  pub cpu : Cpu

-- The call `context_switch(old_ctx, new_ctx)`, `back` being the address behind it.
abbrev pub calling : (back old_ctx new_ctx : ℕ) → Cpu → Cpu
calling back old_ctx new_ctx c = push_word back (record c { rdi = old_ctx; rsi = new_ctx })

-- `if let Some((old_ctx, new_ctx)) = switch_info`
abbrev pub switch_if : Layout → (back : ℕ) → Option (ℕ × ℕ) → Cpu → Exec Cpu
switch_if l back none c = done c
switch_if l back (some (old, new)) c =
    run context_switch (calling back (l.context old) (l.context new) c)

-- `tick`
unfoldable pub tick : Layout → (back : ℕ) → Machine → Exec Machine
tick l back s = do
  r ← prepare_switch s.sched
  c ← switch_if l back r.1 s.cpu
  done (record { sched = r.0; cpu = c })

-- `spawn_thread`: the new thread goes behind the others, and its context is a word there. The vector
-- of threads has the capacity for it, so that the other contexts stay where they are.
unfoldable pub spawn_thread :
    Layout → (trampoline pid entry_fn ptr next_tid : ℕ) → Machine → Machine
spawn_thread l trampoline pid entry_fn ptr next_tid s =
    let c = Thread.new trampoline pid entry_fn ptr s.cpu.memory next_tid in
    record {
      sched = add_thread c.tcb s.sched;
      cpu = record s.cpu {
        memory = write c.memory (l.context (length s.sched.threads)) c.tcb.context.rsp;
      };
    }

-- `mark_thread_exited`
unfoldable pub mark_thread_exited : (tid : ℕ) → Machine → Machine
mark_thread_exited tid s = record s { sched = mark_exited tid s.sched }
