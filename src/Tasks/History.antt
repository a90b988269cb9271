-- ===== src/Tasks/History.antt =====
-- Every history of the machine: threads that run, timer ticks, new threads and exits, in any order.
use rix_os.Base.{ℕ, ◌<◌, ◌≤◌, ◌≡◌, refl, sym, subst, ap, ◌∙◌, ◌≢◌, inl, inr, arith, length, done}
use rix_os.Machine.{Cpu}
use rix_os.Scheduler.{mark_exited}
use rix_os.Scheduler.Exit.{length-exit_first, mark_exited-IsValid}
use rix_os.Tasks.{Layout, Machine, tick, spawn_thread, mark_thread_exited}
use rix_os.Tasks.Suspended.{
  Task, Tasks, suspend, suspend_self, suspend_ne, IsApart, Suspends, Agrees, Keeps-agree,
}
use rix_os.Tasks.Call.{HasRoom, task_of, Runs}
use rix_os.Tasks.Switch.{HasTicked, has_ticked}
use rix_os.Tasks.Spawn.{CanSpawn, fresh_task, spawn-Suspends, spawn-length}

-- What the current thread may do until the next tick: change all but the other threads' stacks and
-- contexts.
abbrev pub OnlyOwn : Layout → Machine → Cpu → Type 0
OnlyOwn l s c =
    (i : ℕ) → i < length s.sched.threads → i ≢ s.sched.current → Agrees l s.cpu.memory c.memory i

-- One step of the machine. A thread that runs leaves the scheduler alone.
pub data Step (l : Layout) (s : Machine) : Machine → Type 0 where
  runs : (c : Cpu) → OnlyOwn l s c → Step l s (record s { cpu = c })
  ticks : (back : ℕ) {s' : Machine} → HasRoom l s → tick l back s ≡ done s' → Step l s s'
  spawns :
      (trampoline pid entry_fn ptr next_tid : ℕ)
      → CanSpawn l ptr s
      → Step l s (spawn_thread l trampoline pid entry_fn ptr next_tid s)
  exits : (tid : ℕ) → Step l s (mark_thread_exited tid s)

-- A history in which the thread at place `i` does not run.
pub data Away (l : Layout) (i : ℕ) (s : Machine) : Machine → Type 0 where
  here : Away l i s s
  next : {s' s'' : Machine} → Away l i s s' → Step l s' s'' → s''.sched.current ≢ i → Away l i s s''

exit-length :
    (tid : ℕ) (s : Machine)
    → length (mark_thread_exited tid s).sched.threads ≡ length s.sched.threads
unfolding mark_thread_exited mark_exited
exit-length tid s = length-exit_first tid s.sched.threads

exit-Suspends :
    {l : Layout} {s : Machine} {ts : Tasks} (tid : ℕ)
    → Suspends l s ts
    → Suspends l (mark_thread_exited tid s) ts
unfolding mark_thread_exited mark_exited
exit-Suspends {l} {s} {ts} tid h = record {
  valid = mark_exited-IsValid tid h.valid;
  apart = subst (IsApart l) (sym (length-exit_first tid s.sched.threads)) h.apart;
  kept = λ k lk. h.kept k (omega (arith, length-exit_first tid s.sched.threads));
}

-- A thread that runs keeps the others suspended.
pub runs-Suspends :
    {l : Layout} {s : Machine} {ts : Tasks} (c : Cpu)
    → OnlyOwn l s c
    → Suspends l s ts
    → Suspends l (record s { cpu = c }) ts
runs-Suspends c own h = record {
  valid = h.valid;
  apart = h.apart;
  kept = λ k lk nk. Keeps-agree (own k lk nk) (h.kept k lk nk);
}

-- The suspended threads after a step: none is lost, and those that did not run are as they were.
pub record Stepped (l : Layout) (s : Machine) (ts : Tasks) (s' : Machine) : Type 0 where
  pub tasks : Tasks
  pub holds : Suspends l s' tasks
  pub same : (i : ℕ) → i ≢ s.sched.current → i < length s.sched.threads → tasks i ≡ ts i
  pub longer : length s.sched.threads ≤ length s'.sched.threads

tick-Stepped :
    (l : Layout) (back : ℕ) (s s' : Machine) (ts : Tasks)
    → Suspends l s ts
    → HasTicked l back s ts s'
    → Stepped l s ts s'
tick-Stepped l back s s' ts h (inl e) =
    subst (Stepped l s ts) (sym e)
      (record { tasks = ts; holds = h; same = λ i ne lt. refl; longer = omega arith })
tick-Stepped l back s s' ts h (inr (j, sw, r, k)) = record {
  tasks = suspend s.sched.current (task_of back s.cpu) ts;
  holds = k;
  same = λ i ne lt. suspend_ne s.sched.current i (task_of back s.cpu) ts ne;
  longer = omega (arith, sw.same_length);
}

pub Step-Stepped :
    {l : Layout} {s s' : Machine} {ts : Tasks} → Step l s s' → Suspends l s ts → Stepped l s ts s'
Step-Stepped {l} {s} {ts = ts} (runs c agrees) h = record {
  tasks = ts;
  holds = runs-Suspends c agrees h;
  same = λ i ne lt. refl;
  longer = omega arith;
}
Step-Stepped {l} {s} {ts = ts} (ticks back {s'} room e) h =
    tick-Stepped l back s s' ts h (has_ticked l back s s' ts h room e)
Step-Stepped {l} {s} {ts = ts} (spawns trampoline pid entry_fn ptr next_tid can) h = record {
  tasks = suspend (length s.sched.threads) (fresh_task trampoline entry_fn ptr) ts;
  holds = spawn-Suspends l trampoline pid entry_fn ptr next_tid s ts h can;
  same = λ i ne lt.
      suspend_ne (length s.sched.threads) i (fresh_task trampoline entry_fn ptr) ts (omega arith);
  longer = omega (arith, spawn-length l trampoline pid entry_fn ptr next_tid s ts h can);
}
Step-Stepped {l} {s} {ts = ts} (exits tid) h = record {
  tasks = ts;
  holds = exit-Suspends tid h;
  same = λ i ne lt. refl;
  longer = omega (arith, exit-length tid s);
}

-- The machine after a history, its suspended threads, and the one at place `i` as it was.
record Remains (l : Layout) (i : ℕ) (t : Task) (s' : Machine) : Type 0 where
  tasks : Tasks
  holds : Suspends l s' tasks
  same : tasks i ≡ t
  in_range : i < length s'.sched.threads

module _ (l : Layout) (i : ℕ) where
  Away-Remains :
      {s s' : Machine} {ts : Tasks}
      → Away l i s s'
      → Suspends l s ts
      → s.sched.current ≢ i
      → i < length s.sched.threads
      → Remains l i (ts i) s' × (s'.sched.current ≢ i)
  Away-Remains {s} {ts = ts} here h ne lt =
      (record { tasks = ts; holds = h; same = refl; in_range = lt }, ne)
  Away-Remains {s} {s' = s''} {ts = ts} (next a st ne') h ne lt =
      let (r, away) = Away-Remains a h ne lt in
      let w = Step-Stepped st r.holds in
      (
        record {
          tasks = w.tasks;
          holds = w.holds;
          same = w.same i (λ e. away (sym e)) r.in_range ∙ r.same;
          in_range = omega (arith, r.in_range, w.longer);
        },
        ne',
      )

  -- A tick that brings the thread at place `i` back.
  tick-Runs :
      (back : ℕ) (s s' : Machine) (ts : Tasks)
      → HasTicked l back s ts s'
      → s.sched.current ≢ i
      → s'.sched.current ≡ i
      → Runs s'.cpu (ts i)
  tick-Runs back s s' ts (inl e) ne at =
      absurd (ne (ap (λ (m : Machine). m.sched.current) (sym e) ∙ at))
  tick-Runs back s s' ts (inr (j, sw, r, k)) ne at =
      subst (λ p. Runs s'.cpu (ts p)) (sym sw.current ∙ at) r

-- A thread that a tick switched away from, and that a later tick switches back to, goes on behind
-- its call of `context_switch` with its callee-saved registers and its stack pointer as they were at
-- the call: whatever other threads did in between on their own stacks, and whatever ticks, new
-- threads and exits there were.
pub thread_resumes :
    (l : Layout) (back back' : ℕ) (s s1 s2 s3 : Machine) (ts : Tasks)
    → Suspends l s ts
    → HasRoom l s
    → tick l back s ≡ done s1
    → s1.sched.current ≢ s.sched.current
    → Away l s.sched.current s1 s2
    → HasRoom l s2
    → tick l back' s2 ≡ done s3
    → s3.sched.current ≡ s.sched.current
    → Runs s3.cpu (task_of back s.cpu)
thread_resumes l back back' s s1 s2 s3 ts h room e ne away room' e' at =
    from_first (has_ticked l back s s1 ts h room e)
  where
    from_first : HasTicked l back s ts s1 → Runs s3.cpu (task_of back s.cpu)
    from_first (inl same) = absurd (ne (ap (λ (m : Machine). m.sched.current) same))
    from_first (inr (j, sw, r, k)) =
        let (m, ne') =
          Away-Remains l s.sched.current away k ne
            (omega (arith, sw.same_length, h.valid.in_range)) in
        subst (Runs s3.cpu) (m.same ∙ suspend_self s.sched.current (task_of back s.cpu) ts) (
          tick-Runs l s.sched.current back' s2 s3 m.tasks
            (has_ticked l back' s2 s3 m.tasks m.holds room' e') ne' at)
