-- ===== src/Startup/Demos.antt =====
-- The demo processes that `kernel_main` of kernel/src/main.rs starts get the processor.
use rix_os.Base.{ℕ, ◌≡◌, ◌++◌, ◌⊎◌, some, true, List, ◌∷◌, done}
use rix_os.Machine
use rix_os.Scheduler.{running}
use rix_os.Scheduler.Ready.{state_at}
use rix_os.Kernel as Kernel
use rix_os.Interrupts.{timer}
use rix_os.Interrupts.Locks.{Shared}
use rix_os.Interrupts.Locks.Events.{Event, irq, Plays}
use rix_os.Startup.{Platform}
use rix_os.Startup.Conditions.{Handover}

module _ {T D S L P C E K H M Tables Fadt AmlName Namespace : Type 0}
    (b : Platform T D S L P C E K H M Tables Fadt AmlName Namespace) (log : L)
    (m : Handover Tables K) (virt : ℕ → ℕ) (W R : ℕ) where
  -- The first of these events happen. Behind them a thread of process `j` runs, or the lock of
  -- SCHEDULER is held and the timer is next.
  pub record DemoRuns (j : ℕ) (es : List Event) (s : Shared C K H) : Type 0 where
    pub before : List Event
    pub left : List Event
    pub split : before ++ left ≡ es
    pub after : Shared C K H
    pub plays : Plays b.chips b.io b.addresses (some m.offset) b.get_raster before s after
    pub ends :
        ((state_at after.system.kernel.sched after.system.kernel.sched.current ≡ some running)
          × (Kernel.current_pid after.system.kernel ≡ done j))
        ⊎ ((after.held ≡ true) × (rest : List Event) × (left ≡ irq timer ∷ rest))
