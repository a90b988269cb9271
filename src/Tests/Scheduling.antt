-- ===== src/Tests/Scheduling.antt =====
-- The scheduler of kernel/src/scheduler.rs on four threads.
use rix_os.Base.{ℕ, zero, suc, ◌≡◌, refl, some, [], ◌∷◌, arith, done}
use rix_os.Scheduler.{
  ThreadState, ready, running, exited, ThreadControlBlock, Scheduler, prepare_switch,
  next_ready_thread, scan, switch_to, set_state, tick,
}
use rix_os.Scheduler.Ready.{state_at, IsValid}
use rix_os.Scheduler.Fairness.{RunsWithin, ready-RunsWithin, ticks}
use rix_os.Scheduler.Steps.{ExitEnds, tick_after_exit}

abbrev thread : ℕ → ThreadState → ThreadControlBlock
thread tid state = record {
  tid = tid;
  pid = tid;
  state = state;
  context = record { rsp = 0 };
  kernel_stack = record { ptr = 0; len = 0 };
}

-- Thread 1 runs, 0 and 3 wait for their turn, 2 has exited.
abbrev four : Scheduler
four = record {
  threads = thread 0 ready ∷ thread 1 running ∷ thread 2 exited ∷ thread 3 ready ∷ [];
  current = 1;
}

four_only : (k : ℕ) → state_at four k ≡ some running → k ≡ 1
four_only zero r = absurd (ground arith)
four_only (suc zero) r = refl
four_only (suc (suc zero)) r = absurd (ground arith)
four_only (suc (suc (suc zero))) r = absurd (ground arith)
four_only (suc (suc (suc (suc k)))) r = absurd (ground arith)

four-IsValid : IsValid four
four-IsValid = record { in_range = omega arith; small = omega arith; only_current = four_only }

next_ready_four : next_ready_thread four ≡ done (some 3)
unfolding next_ready_thread scan
next_ready_four = refl

ticks-four :
    ticks 2 four
    ≡ done (record {
      threads = thread 0 running ∷ thread 1 ready ∷ thread 2 exited ∷ thread 3 ready ∷ [];
      current = 0;
    })
unfolding ticks tick prepare_switch next_ready_thread scan switch_to set_state
ticks-four = refl

ready-RunsWithin_example : RunsWithin four 0 3
ready-RunsWithin_example = ready-RunsWithin four 0 four-IsValid refl (omega arith)

-- Thread 1 marks itself Exited.
abbrev after_exit : Scheduler
after_exit = record {
  threads = thread 0 ready ∷ thread 1 exited ∷ thread 2 exited ∷ thread 3 ready ∷ [];
  current = 1;
}

after_exit-IsValid : IsValid after_exit
after_exit-IsValid = record {
  in_range = omega arith;
  small = omega arith;
  only_current = none_runs;
}
  where
    none_runs : (k : ℕ) → state_at after_exit k ≡ some running → k ≡ 1
    none_runs zero r = absurd (ground arith)
    none_runs (suc zero) r = refl
    none_runs (suc (suc zero)) r = absurd (ground arith)
    none_runs (suc (suc (suc zero))) r = absurd (ground arith)
    none_runs (suc (suc (suc (suc k)))) r = absurd (ground arith)

tick_after_exit_example : ExitEnds after_exit
tick_after_exit_example = tick_after_exit after_exit after_exit-IsValid refl
