-- ===== src/Demo.antt =====
-- kernel/src/scheduler.rs: the two demo tasks, which count and report.
pub mod Reports
use rix_os.Base.{
  ℕ, zero, suc, ◌+◌, ◌/◌, ◌%◌, ◌^◌, List, [], ◌∷◌, ◌==◌, if◌then◌else◌, u64, Exec, done, ◌>>=◌,
}
use rix_os.Kernel.{Kernel, current_pid, current_tid}

-- "Process {} / Thread {}: tick {}"
pub record Report : Type 0 where
  pub pid : ℕ
  pub tid : ℕ
  pub tick : ℕ

-- The next `rounds` rounds of the endless loop, at `count`: what they report, and the count after
-- them.
unfoldable pub demo_loop : (rounds : ℕ) → (pid tid count : ℕ) → List Report × ℕ
demo_loop zero pid tid count = ([], count)
demo_loop (suc rounds) pid tid count =
    let (reports, last) = demo_loop rounds pid tid (u64 (count + 1)) in
    (
      if count % 10_000_000 == 0
          then record { pid = pid; tid = tid; tick = count / 10_000_000 } ∷ reports
          else reports,
      last,
    )

-- `demo_task_a` and `demo_task_b`, which are the same, for that many rounds.
unfoldable pub demo_task : (rounds : ℕ) → Kernel → Exec (List Report × ℕ)
demo_task rounds k = do pid ← current_pid k; tid ← current_tid k; done (demo_loop rounds pid tid 0)
