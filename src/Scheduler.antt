-- ===== src/Scheduler.antt =====
-- The round-robin scheduler: kernel/src/scheduler.rs, `Scheduler` and its methods, and
-- `TaskContext` of kernel/src/context.rs.
pub mod Exit
pub mod Nearer
pub mod Fairness
pub mod Ready
pub mod Steps
pub mod Switch
use rix_os.Base.{
  ℕ, zero, suc, ◌+◌, ◌%◌, ◌-◌, Bool, true, false, Option, none, some, List, [], ◌∷◌, ◌++◌, leb,
  ◌==◌, if◌then◌else◌, length, set, Exec, done, ◌>>=◌, index, u64,
}

pub data ThreadState : Type 0 where
  ready running blocked exited : ThreadState

-- `self.state == ThreadState::Ready`
abbrev pub is_ready : ThreadState → Bool
is_ready ready = true
is_ready _ = false

-- `self.state == ThreadState::Running`
abbrev pub is_running : ThreadState → Bool
is_running running = true
is_running _ = false

pub record TaskContext : Type 0 where
  pub rsp : ℕ

-- The buffer of a `Vec<u8>`: where it starts and how many bytes it has.
pub record Buffer : Type 0 where
  pub ptr : ℕ
  pub len : ℕ

pub record ThreadControlBlock : Type 0 where
  pub tid : ℕ
  pub pid : ℕ
  pub state : ThreadState
  pub context : TaskContext
  pub kernel_stack : Buffer

pub record Scheduler : Type 0 where
  pub threads : List ThreadControlBlock
  pub current : ℕ

-- `Scheduler::new`
unfoldable pub new : Scheduler
new = record { threads = []; current = 0 }

unfoldable pub add_thread : ThreadControlBlock → Scheduler → Scheduler
add_thread tcb s = record s { threads = s.threads ++ tcb ∷ [] }

-- The loop `for i in 1..n` of `next_ready_thread` at round `i`, with `left` rounds to go.
unfoldable pub scan : List ThreadControlBlock → (current n : ℕ) → (left i : ℕ) → Exec (Option ℕ)
scan threads current n zero i = done none
scan threads current n (suc left) i =
    let idx = u64 (current + i) % n in
    let rest = scan threads current n left (i + 1) in
    index threads idx >>= λ t. if is_ready t.state then done (some idx) else rest

unfoldable pub next_ready_thread : Scheduler → Exec (Option ℕ)
unfolding scan
next_ready_thread s =
    let n = length s.threads in if leb n 1 then done none else scan s.threads s.current n (n - 1) 1

-- `self.threads[i].state = state`
unfoldable pub set_state :
    List ThreadControlBlock → ℕ → ThreadState → Exec (List ThreadControlBlock)
set_state threads i state =
    index threads i >>= λ t. done (set threads i (record t { state = state }))

-- `prepare_switch` from its second line on. The two pointers that it returns are the places of the
-- two threads in `threads`.
unfoldable pub switch_to : Scheduler → ℕ → Exec (Scheduler × Option (ℕ × ℕ))
unfolding set_state
switch_to s next_idx = do
  t ← index s.threads s.current
  threads ← if is_running t.state then set_state s.threads s.current ready else done s.threads
  switched ← set_state threads next_idx running
  done (record { threads = switched; current = next_idx }, some (s.current, next_idx))

unfoldable pub prepare_switch : Scheduler → Exec (Scheduler × Option (ℕ × ℕ))
prepare_switch s = do
  found ← next_ready_thread s
  elim found [ none ↦ done (s, none) | some next_idx ↦ switch_to s next_idx ]

-- `Scheduler::current_tid` and `Scheduler::current_pid`
unfoldable pub current_tid : Scheduler → Exec ℕ
current_tid s = do t ← index s.threads s.current; done t.tid

unfoldable pub current_pid : Scheduler → Exec ℕ
current_pid s = do t ← index s.threads s.current; done t.pid

-- The loop of `mark_exited`, which stops at the first thread with this id.
unfoldable pub exit_first : ℕ → List ThreadControlBlock → List ThreadControlBlock
exit_first tid [] = []
exit_first tid (t ∷ ts) =
    if t.tid == tid then record t { state = exited } ∷ ts else t ∷ exit_first tid ts

unfoldable pub mark_exited : ℕ → Scheduler → Scheduler
mark_exited tid s = record s { threads = exit_first tid s.threads }

unfoldable pub thread_count : Scheduler → ℕ
thread_count s = length s.threads

-- What `tick` does to the scheduler; the context switch of kernel/src/context.rs is apart.
unfoldable pub tick : Scheduler → Exec Scheduler
tick s = do r ← prepare_switch s; done r.0
