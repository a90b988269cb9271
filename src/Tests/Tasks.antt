-- ===== src/Tests/Tasks.antt =====
-- Two threads on one processor: the idle one, a new one, and back.
use rix_os.Base.{
  ℕ, zero, suc, ◌+◌, ◌-◌, some, length, ◌*◌, ◌≤◌, ◌≡◌, refl, false, [], ◌∷◌, arith, done, Exec,
  panic, sym, ◌∙◌,
}
use rix_os.Machine.{Cpu, run, exec, write}
use rix_os.Context.{context_switch}
use rix_os.Thread as Thread
use rix_os.Scheduler as Scheduler
use rix_os.Scheduler.Ready.{IsValid, state_at}
use rix_os.Process as Process
use rix_os.Kernel.{idle, boot, init_idle}
use rix_os.Tests.Processes.{supply}
use rix_os.Tasks.{Layout, Machine, spawn_thread, tick}
use rix_os.Tasks.Suspended.{Tasks, suspend, IsApart, Suspends}
use rix_os.Tasks.Call.{HasRoom, task_of, Runs}
use rix_os.Tasks.Switch.{TickEnds, tick_resumes}
use rix_os.Tasks.Spawn.{CanSpawn, spawn-Suspends, fresh_task}
use rix_os.Tasks.History.{Away, Step, thread_resumes}
use rix_os.Tasks.Fair.{ResumesWithin, ready-ResumesWithin}
use rix_os.Tasks.Started.{start, Reach, tick_from_init}

-- The stacks of 16 KiB lie 64 KiB apart, and the contexts below them.
abbrev layout : Layout
layout = record {
  context = λ i. 0x100 + 8 * i;
  low = λ i. 0x10000 * (i + 1);
  high = λ i. 0x10000 * (i + 1) + 0x4000;
}

layout-IsApart : (n : ℕ) → n ≤ 2 → IsApart layout n
layout-IsApart n h = record {
  bounded = λ i l. omega arith;
  stacks = λ i j l k ne. omega arith;
  contexts = λ i j l k ne e. omega arith;
  outside = λ i j l k. omega arith;
}

abbrev cpu : Cpu
cpu = record {
  rbx = 1;
  rbp = 2;
  r12 = 3;
  r13 = 4;
  r14 = 5;
  r15 = 6;
  rsp = 0x13000;
  rdi = 0;
  rsi = 0;
  rip = 0x99;
  interrupts = false;
  memory = λ a. 0;
}

-- The idle thread alone.
abbrev alone : Machine
alone = record { sched = record { threads = idle ∷ []; current = 0 }; cpu = cpu }

abbrev nobody : Tasks
nobody i = task_of 0 cpu

alone-IsValid : IsValid alone.sched
alone-IsValid = record {
  in_range = omega arith;
  small = omega arith;
  only_current = elim [ zero ↦ λ r. refl | suc k ↦ λ r. cc ];
}

alone-Suspends : Suspends layout alone nobody
alone-Suspends = record {
  valid = alone-IsValid;
  apart = layout-IsApart 1 (omega arith);
  kept = λ i l ne. absurd (ne (omega arith));
}

abbrev two : Machine
two = spawn_thread layout 0x77 1 0x55 0x20000 1 alone

abbrev suspended : Tasks
suspended = suspend 1 (fresh_task 0x77 0x55 0x20000) nobody

two-Suspends : Suspends layout two suspended
two-Suspends = spawn-Suspends layout 0x77 1 0x55 0x20000 1 alone nobody alone-Suspends (record {
  start = refl;
  end' = refl;
  apart = layout-IsApart 2 (omega arith);
  capacity = omega arith;
})

two-HasRoom : HasRoom layout two
unfolding spawn_thread Scheduler.add_thread
two-HasRoom = record { above = omega arith; below = omega arith }

tick_resumes_example : TickEnds layout 0x99 two suspended
tick_resumes_example = tick_resumes layout 0x99 two suspended two-Suspends two-HasRoom

two_current : two.sched.current ≡ 0
unfolding spawn_thread Scheduler.add_thread
two_current = refl

-- What a tick leads to, or `m` where it panics.
abbrev or_else : Machine → Exec Machine → Machine
or_else m (done s) = s
or_else m panic = m

abbrev one_tick : Machine
one_tick = or_else two (tick layout 0x99 two)

abbrev two_ticks : Machine
two_ticks = or_else two (tick layout 0xaa one_tick)

one_tick_returns :
    (tick layout 0x99 two ≡ done one_tick)
    × (one_tick.sched.current ≡ 1)
    × (one_tick.cpu.rsp ≡ 0x24000)
    × (one_tick.cpu.rip ≡ 0x77)
    × (one_tick.cpu.r12 ≡ 0x55)
unfolding spawn_thread Scheduler.add_thread tick Scheduler.prepare_switch
    Scheduler.next_ready_thread Scheduler.scan Scheduler.switch_to Scheduler.set_state run exec
    context_switch write Thread.new Thread.initial_rsp Thread.stack_top Thread.store_frame
    Thread.zeroed
one_tick_returns = (refl, refl, refl, refl, refl)

two_ticks_returns : (tick layout 0xaa one_tick ≡ done two_ticks) × (two_ticks.sched.current ≡ 0)
unfolding spawn_thread Scheduler.add_thread tick Scheduler.prepare_switch
    Scheduler.next_ready_thread Scheduler.scan Scheduler.switch_to Scheduler.set_state run exec
    context_switch write Thread.new Thread.initial_rsp Thread.stack_top Thread.store_frame
    Thread.zeroed
two_ticks_returns = (refl, refl)

one_tick-HasRoom : HasRoom layout one_tick
one_tick-HasRoom = record {
  above = omega (arith, one_tick_returns);
  below = omega (arith, one_tick_returns);
}

thread_resumes_example : Runs two_ticks.cpu (task_of 0x99 two.cpu)
thread_resumes_example =
    thread_resumes layout 0x99 0xaa two one_tick one_tick two_ticks suspended two-Suspends
      two-HasRoom one_tick_returns.0 (omega (arith, one_tick_returns.1, two_current)) Away.here
      one_tick-HasRoom two_ticks_returns.0 (two_ticks_returns.1 ∙ sym two_current)

-- The same after `scheduler::init`.
abbrev first : Machine
first = start (supply 0x10000) (λ a. 0) cpu

first-CanSpawn : CanSpawn layout 0x20000 first
unfolding init_idle boot Process.alloc_pid Scheduler.new Scheduler.add_thread
first-CanSpawn = record {
  start = refl;
  end' = refl;
  apart = layout-IsApart 2 (omega arith);
  capacity = omega arith;
}

abbrev spawned : Machine
spawned = spawn_thread layout 0x77 1 0x55 0x20000 1 first

spawned-HasRoom : HasRoom layout spawned
unfolding spawn_thread Scheduler.add_thread init_idle boot Process.alloc_pid Scheduler.new
spawned-HasRoom = record { above = omega arith; below = omega arith }

tick_from_init_example : (ts : Tasks) × Suspends layout spawned ts × TickEnds layout 0x99 spawned ts
tick_from_init_example =
    tick_from_init layout 0x99 (supply 0x10000) (λ a. 0) cpu spawned
      (layout-IsApart 1 (omega arith))
      (Reach.next Reach.here (Step.spawns 0x77 1 0x55 0x20000 1 first-CanSpawn)) spawned-HasRoom

two_ready : state_at two.sched 1 ≡ some Scheduler.ready
unfolding spawn_thread Scheduler.add_thread Thread.new
two_ready = refl

two_alone : length two.sched.threads ≡ 2
unfolding spawn_thread Scheduler.add_thread
two_alone = refl

ready-ResumesWithin_example :
    ResumesWithin layout 1 (fresh_task 0x77 0x55 0x20000) (length two.sched.threads - 1) two
ready-ResumesWithin_example =
    ready-ResumesWithin layout two suspended 1 two-Suspends two_ready
      (λ e. absurd (ground (arith, e, two_current)))
