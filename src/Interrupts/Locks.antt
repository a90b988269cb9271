-- ===== src/Interrupts/Locks.antt =====
-- The hardware interrupts of kernel/src/interrupts.rs and the lock of SCHEDULER in
-- kernel/src/scheduler.rs. Threads run with interrupts on, also while they hold it.

pub mod Live
pub mod Events
pub mod Fair
use rix_os.Base.{
  ℕ, ◌^◌, ◌<◌, ◌≡◌, ◌≢◌, refl, sym, subst, ap, ◌∙◌, ◌⊎◌, inl, inr, Bool, true, false, Option, some,
  List, if◌then◌else◌, length, Exec, done, ◌>>=◌, done_eq, arith,
}
use rix_os.Io.{Ports}
use rix_os.PhysMemory.{Addresses, Offset}
use rix_os.Machine
use rix_os.Scheduler as Scheduler
use rix_os.Scheduler.{ThreadControlBlock, ready, add_thread, mark_exited}
use rix_os.Scheduler.Ready.{IsValid}
use rix_os.Scheduler.Exit.{mark_exited-IsValid}
use rix_os.Scheduler.Steps.{tick_ends, add_thread-IsValid}
use rix_os.Process.{ProcessTable}
use rix_os.Kernel as Kernel
use rix_os.Kernel.{Kernel}
use rix_os.Kernel.Tick.{tick-done}
use rix_os.Apic.{Chips, LApic, end_interrupts}
use rix_os.Console.{Raster, NotoFontDisplay}
use rix_os.Interrupts.{
  InterruptIndex, timer, keyboard, lapic_error, spurious, lookup, System, Outcome, returns, halts,
  send_eoi, on_timer, on_keyboard, handle,
}
use rix_os.Interrupts.Delivery.{interrupt, acknowledged, devices_after}

-- The system, and whether a thread holds the lock of SCHEDULER.
pub record Shared (C L H : Type 0) : Type 0 where
  pub system : System C L H
  pub held : Bool

-- A handler returns, halts for good, or spins for good on the lock that the thread below it holds.
pub data Attempt (S : Type 0) : Type 0 where
  handled stopped spins : S → Attempt S

abbrev pub attempt_of : {C L H : Type 0} → Bool → Outcome (System C L H) → Attempt (Shared C L H)
attempt_of held (returns s) = handled (record { system = s; held = held })
attempt_of held (halts s) = stopped (record { system = s; held = held })

-- What a thread changes: the kernel's scheduler, or all else of the kernel.
abbrev pub with_sched : {C L H : Type 0} → Scheduler.Scheduler → Shared C L H → Shared C L H
with_sched sched s = record s {
  system = record s.system { kernel = record s.system.kernel { sched = sched } };
}

abbrev pub with_others :
    {C L H : Type 0}
    → ProcessTable
    → (next_tid : ℕ) → Machine.Memory
    → Option NotoFontDisplay
    → Shared C L H
    → Shared C L H
with_others table next_tid memory console s = record s {
  system = record s.system {
    kernel = record s.system.kernel { table = table; next_tid = next_tid; memory = memory };
    console = console;
  };
}

-- What a thread does between two interrupts: it takes the lock of SCHEDULER, gives it back, adds a
-- Ready thread or marks one Exited under the lock, or changes what is not SCHEDULER's: the process
-- table, NEXT_TID, memory and the console. The functions of kernel/src/process.rs and
-- kernel/src/scheduler.rs are sequences of these.
pub data ThreadStep {C L H : Type 0} (s : Shared C L H) : Shared C L H → Type 0 where
  takes : s.held ≡ false → ThreadStep s (record s { held = true })
  gives : s.held ≡ true → ThreadStep s (record s { held = false })
  adds :
      (tcb : ThreadControlBlock)
      → s.held ≡ true
      → tcb.state ≡ ready
      → length s.system.kernel.sched.threads < 2 ^ 63
      → ThreadStep s (with_sched (add_thread tcb s.system.kernel.sched) s)
  exits :
      (tid : ℕ)
      → s.held ≡ true
      → ThreadStep s (with_sched (mark_exited tid s.system.kernel.sched) s)
  changes :
      (table : ProcessTable) (next_tid : ℕ) (memory : Machine.Memory)
      (console : Option NotoFontDisplay)
      → ThreadStep s (with_others table next_tid memory console s)

module _ {C E L H : Type 0} (chips : Chips C E L) (io : Ports H) (x : Addresses) (o : Offset)
    (get_raster : (char font_weight raster_height : ℕ) → Option Raster) where
  -- An interrupt: the timer's handler sends the end of interrupt, and then `tick` takes the lock.
  unfoldable pub attempt :
      (pieces : List (List ℕ)) → InterruptIndex → Shared C L H → Exec (Attempt (Shared C L H))
  attempt pieces timer s =
      if s.held
      then (do
        system ← send_eoi chips io x o get_raster s.system
        done (spins (record s { system = system })))
      else (do
        r ← interrupt chips io x o get_raster pieces timer s.system
        done (attempt_of false r))
  attempt pieces keyboard s = do
    r ← interrupt chips io x o get_raster pieces keyboard s.system
    done (attempt_of s.held r)
  attempt pieces lapic_error s = do
    r ← interrupt chips io x o get_raster pieces lapic_error s.system
    done (attempt_of s.held r)
  attempt pieces spurious s = do
    r ← interrupt chips io x o get_raster pieces spurious s.system
    done (attempt_of s.held r)

  -- Every history of the running system: interrupts that returned, and what threads did in between.
  pub data SharedReach (s : Shared C L H) : Shared C L H → Type 0 where
    here : SharedReach s s
    ran : {s' s'' : Shared C L H} → SharedReach s s' → ThreadStep s' s'' → SharedReach s s''
    served :
        (pieces : List (List ℕ)) (i : InterruptIndex) {s' s'' : Shared C L H}
        → SharedReach s s'
        → attempt pieces i s' ≡ done (handled s'')
        → SharedReach s s''
