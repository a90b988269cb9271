-- ===== src/Tasks/Fair.antt =====
-- How soon the processor goes on with a Ready thread.
use rix_os.Base.{
  ℕ, zero, suc, ◌-◌, sym, ◌≤◌, ◌≡◌, subst, ◌∙◌, ◌≢◌, ◌⊎◌, inl, inr, some, arith, length, done,
}
use rix_os.Machine.{Cpu}
use rix_os.Scheduler.{ready}
use rix_os.Scheduler.Ready.{state_at, gap}
use rix_os.Scheduler.Nearer.{lt_of_state_at, gap_bounds, switch-Approaches, not_idle}
use rix_os.Tasks.{Layout, Machine, tick}
use rix_os.Tasks.Suspended.{Task, Tasks, suspend, suspend_ne, Suspends}
use rix_os.Tasks.Call.{HasRoom, task_of, Runs}
use rix_os.Tasks.Switch.{tick_resumes}
use rix_os.Tasks.History.{OnlyOwn, runs-Suspends}

-- At most `bound` ticks, with the current thread running on its own stack before each, bring the
-- processor to go on with the thread at place `i` as `t`; none of them panics or faults.
unfoldable pub ResumesWithin : Layout → (i : ℕ) → Task → (bound : ℕ) → Machine → Type 0
ResumesWithin l i t zero s = ⊥
ResumesWithin l i t (suc bound) s =
    (back : ℕ) (c : Cpu)
    → OnlyOwn l s c
    → HasRoom l (record s { cpu = c })
    → (s' : Machine) × (tick l back (record s { cpu = c }) ≡ done s')
      × (((s'.sched.current ≡ i) × Runs s'.cpu t) ⊎ ResumesWithin l i t bound s')

resumes :
    (l : Layout) (bound : ℕ) (s : Machine) (ts : Tasks) (i : ℕ)
    → Suspends l s ts
    → state_at s.sched i ≡ some ready
    → i ≢ s.sched.current
    → gap (length s.sched.threads) s.sched.current i ≤ bound
    → ResumesWithin l i (ts i) bound s
unfolding ResumesWithin
resumes l zero s ts i h r ne le =
    let lt = lt_of_state_at s.sched i r in
    absurd
      (omega (arith, gap_bounds (length s.sched.threads) s.sched.current i h.valid.in_range lt ne))
resumes l (suc bound) s ts i h r ne le = λ back c own room.
    let m : Machine = record s { cpu = c } in
    elim (tick_resumes l back m ts (runs-Suspends c own h) room) [
      | inl (e, idle) ↦ absurd (not_idle s.sched i h.valid r ne idle)
      | inr (k, s', e, f, sw, runs, h') ↦
          elim (switch-Approaches s.sched s'.sched k i h.valid f sw r ne) [
            | inl (at, running) ↦
                (s', e, inl (at, subst (λ p. Runs s'.cpu (ts p)) (sym sw.current ∙ at) runs))
            | inr near ↦
                let later =
                  resumes l bound s' (suspend s.sched.current (task_of back c) ts) i h'
                    near.still_ready near.not_current (omega (arith, near.nearer)) in
                (
                  s',
                  e,
                  inr (
                      subst (λ t. ResumesWithin l i t bound s')
                        (suspend_ne s.sched.current i (task_of back c) ts ne) later),
                )
          ]
    ]

-- Where the memory holds every thread but the current one, a Ready one is reached within n - 1
-- ticks, n the number of threads, whatever the threads in between do on their own stacks: the
-- processor goes on with the registers, return address and stack pointer it was suspended with.
pub ready-ResumesWithin :
    (l : Layout) (s : Machine) (ts : Tasks) (i : ℕ)
    → Suspends l s ts
    → state_at s.sched i ≡ some ready
    → i ≢ s.sched.current
    → ResumesWithin l i (ts i) (length s.sched.threads - 1) s
ready-ResumesWithin l s ts i h r ne =
    let lt = lt_of_state_at s.sched i r in
    resumes l (length s.sched.threads - 1) s ts i h r ne
      (omega (arith, gap_bounds (length s.sched.threads) s.sched.current i h.valid.in_range lt ne))
