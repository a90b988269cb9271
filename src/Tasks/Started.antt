-- ===== src/Tasks/Started.antt =====
-- The whole machine from `scheduler::init` of kernel/src/scheduler.rs on.
use rix_os.Base.{ℕ, ◌≡◌, refl, sym, subst, arith, length}
use rix_os.Machine.{Cpu, Memory}
use rix_os.Process as Process
use rix_os.Scheduler as Scheduler
use rix_os.Kernel.{Supply, boot, init_idle}
use rix_os.Kernel.Init.{first-IsValid}
use rix_os.Tasks.{Layout, Machine}
use rix_os.Tasks.Suspended.{Tasks, IsApart, Suspends}
use rix_os.Tasks.Call.{HasRoom, task_of}
use rix_os.Tasks.Switch.{TickEnds, tick_resumes}
use rix_os.Tasks.History.{Step, Step-Stepped}

-- The idle thread on the processor, and no other.
abbrev pub start : Supply → Memory → Cpu → Machine
start x m c = record { sched = (init_idle x (boot m)).sched; cpu = c }

-- Every history of the machine.
pub data Reach (l : Layout) (s : Machine) : Machine → Type 0 where
  here : Reach l s s
  next : {s' s'' : Machine} → Reach l s s' → Step l s' s'' → Reach l s s''

start_length : (x : Supply) (m : Memory) (c : Cpu) → length (start x m c).sched.threads ≡ 1
unfolding init_idle boot Process.alloc_pid Scheduler.new Scheduler.add_thread
start_length x m c = refl

start_current : (x : Supply) (m : Memory) (c : Cpu) → (start x m c).sched.current ≡ 0
unfolding init_idle boot Process.alloc_pid Scheduler.new Scheduler.add_thread
start_current x m c = refl

start-Suspends :
    (l : Layout) (x : Supply) (m : Memory) (c : Cpu)
    → IsApart l 1
    → Suspends l (start x m c) (λ i. task_of 0 c)
start-Suspends l x m c apart = record {
  valid = first-IsValid x m;
  apart = subst (IsApart l) (sym (start_length x m c)) apart;
  kept = λ i lt ne. absurd (ne (omega (arith, start_length x m c, start_current x m c)));
}

Reach-Suspends :
    {l : Layout} {s s' : Machine} {ts : Tasks}
    → Suspends l s ts
    → Reach l s s'
    → (ts' : Tasks) × Suspends l s' ts'
Reach-Suspends {ts = ts} h here = (ts, h)
Reach-Suspends h (next r st) = let w = Step-Stepped st (Reach-Suspends h r).1 in (w.tasks, w.holds)

-- From `scheduler::init` on, whatever threads run on their own stacks, and whatever ticks, new
-- threads and exits there were, the memory holds every thread but the current one; and the next
-- tick, with room on the current stack, neither panics nor faults: it changes nothing if no other
-- thread is Ready, and else goes on with the first Ready one as that was suspended.
pub tick_from_init :
    (l : Layout) (back : ℕ) (x : Supply) (m : Memory) (c : Cpu) (s : Machine)
    → IsApart l 1
    → Reach l (start x m c) s
    → HasRoom l s
    → (ts : Tasks) × Suspends l s ts × TickEnds l back s ts
tick_from_init l back x m c s apart r room =
    let (ts, h) = Reach-Suspends (start-Suspends l x m c apart) r in
    (ts, h, tick_resumes l back s ts h room)
