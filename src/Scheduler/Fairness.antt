-- ===== src/Scheduler/Fairness.antt =====
-- How soon `tick` of kernel/src/scheduler.rs reaches a Ready thread.
use rix_os.Base.{
  ℕ, zero, suc, ◌-◌, ◌≤◌, ◌≡◌, ◌∙◌, ◌≢◌, inl, inr, some, arith, length, Exec, done, ◌>>=◌,
}
use rix_os.Scheduler.{ready, running, Scheduler, tick}
use rix_os.Scheduler.Nearer.{tick-eq, lt_of_state_at, gap_bounds, not_idle, switch-Approaches}
use rix_os.Scheduler.Ready.{state_at, IsValid, slot, gap}
use rix_os.Scheduler.Switch.{prepare_switch_lem, SwitchEnds, slot-lt, Switched-IsValid}

-- `n` timer ticks in a row.
unfoldable pub ticks : ℕ → Scheduler → Exec Scheduler
ticks zero s = done s
ticks (suc n) s = tick s >>= ticks n

ticks-suc : (n : ℕ) (s s' : Scheduler) → tick s ≡ done s' → ticks (suc n) s ≡ ticks n s'
unfolding ticks
ticks-suc n s s' e = rw e

ticks_one : (s s' : Scheduler) → tick s ≡ done s' → ticks 1 s ≡ done s'
unfolding ticks
ticks_one s s' e = rw e

-- What has come about: `m` ticks, none of which panics, end with place `j` current and Running.
abbrev pub RunsAfter : Scheduler → (j m : ℕ) → Type 0
RunsAfter s j m =
    (s' : Scheduler) × (ticks m s ≡ done s')
    × (s'.current ≡ j)
    × (state_at s' j ≡ some running)
    × IsValid s'

abbrev pub RunsWithin : Scheduler → (j bound : ℕ) → Type 0
RunsWithin s j bound = (m : ℕ) × (m ≤ bound) × RunsAfter s j m

fair :
    (bound : ℕ) (s : Scheduler) (j : ℕ)
    → IsValid s
    → state_at s j ≡ some ready
    → j ≢ s.current
    → gap (length s.threads) s.current j ≤ bound
    → RunsWithin s j bound
fair zero s j v r ne h =
    absurd (
      omega (arith, gap_bounds (length s.threads) s.current j v.in_range (lt_of_state_at s j r) ne))
fair (suc bound) s j v r ne h = by_switch (prepare_switch_lem s v) (fair bound)
  where
    Ih : Type 0
    Ih =
        (t : Scheduler) (k : ℕ)
        → IsValid t
        → state_at t k ≡ some ready
        → k ≢ t.current
        → gap (length t.threads) t.current k ≤ bound
        → RunsWithin t k bound

    by_switch : SwitchEnds s → Ih → RunsWithin s j (suc bound)
    by_switch (inl (e, idle)) ih = absurd (not_idle s j v r ne idle)
    by_switch (inr (i, s', e, f, w)) ih =
        let go = tick-eq s s' _ e in
        let v' = Switched-IsValid (slot s i) v (slot-lt s i v) w in
        elim (switch-Approaches s s' i j v f w r ne) [
          | inl (at, runs) ↦ (1, omega arith, (s', ticks_one s s' go, at, runs, v'))
          | inr near ↦
              let (m, le, (s'', more, at, runs, v'')) =
                ih s' j v' near.still_ready near.not_current (omega (arith, near.nearer)) in
              (suc m, omega arith, (s'', ticks-suc m s s' go ∙ more, at, runs, v''))
        ]

-- In a valid scheduler a Ready thread that is not the current one becomes current and Running within
-- n - 1 timer ticks, n the number of threads, and none of those ticks panics.
pub ready-RunsWithin :
    (s : Scheduler) (j : ℕ)
    → IsValid s
    → state_at s j ≡ some ready
    → j ≢ s.current
    → RunsWithin s j (length s.threads - 1)
ready-RunsWithin s j v r ne =
    fair (length s.threads - 1) s j v r ne (
      omega (arith, gap_bounds (length s.threads) s.current j v.in_range (lt_of_state_at s j r) ne))
