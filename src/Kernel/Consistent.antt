-- ===== src/Kernel/Consistent.antt =====
-- The invariant that ties threads, processes and the two id counters together.
use rix_os.Base.{
  ℕ, ◌<◌, ◌≡◌, refl, Bool, true, false, ◌||◌, some, List, [], ◌∷◌, ◌++◌, ◌==◌, arith, get_elem?,
}
use rix_os.Scheduler.{ThreadControlBlock}
use rix_os.Scheduler.Ready.{IsValid}
use rix_os.Scheduler.Exit.{UniqueTids}
use rix_os.Process
use rix_os.Process.{ProcessControlBlock, ProcessTable}
use rix_os.Kernel.{Kernel}

-- `xs.contains(&x)`
abbrev pub has : ℕ → List ℕ → Bool
has x [] = false
has x (y ∷ ys) = (y == x) || has x ys

pub has-append : (x : ℕ) (ys zs : List ℕ) → has x (ys ++ zs) ≡ (has x ys || has x zs)
has-append x [] zs = refl
has-append x (y ∷ ys) zs = ground (arith, has-append x ys zs)

-- A thread at a place of the list.
abbrev pub ThreadAt : Kernel → ℕ → ThreadControlBlock → Type 0
ThreadAt k i t = get_elem? k.sched.threads i ≡ some t

-- The process of the id is in the table.
abbrev pub HasProcess : Kernel → ℕ → ProcessControlBlock → Type 0
HasProcess k pid pcb = Process.get pid k.table ≡ some pcb

-- A thread that belongs to a process and that the process lists.
pub record IsOwned (k : Kernel) (t : ThreadControlBlock) : Type 0 where
  pub owner : ProcessControlBlock
  pub in_table : HasProcess k t.pid owner
  pub listed : has t.tid owner.threads ≡ true

-- The thread that stands for an id in a process's list.
pub record IsPresent (k : Kernel) (pid tid : ℕ) : Type 0 where
  pub place : ℕ
  pub thread : ThreadControlBlock
  pub at : ThreadAt k place thread
  pub same_tid : thread.tid ≡ tid
  pub same_pid : thread.pid ≡ pid

-- The scheduler is valid, no two threads share an id, the ids given out are below the counters, each
-- process stands under its own id, each thread belongs to a process that lists it, and each listed
-- id is that of a thread of that process.
pub record IsConsistent (k : Kernel) : Type 0 where
  pub valid : IsValid k.sched
  pub unique : UniqueTids k.sched.threads
  pub tids_below : (i : ℕ) (t : ThreadControlBlock) → ThreadAt k i t → t.tid < k.next_tid
  pub pids_below : (p : ℕ) (pcb : ProcessControlBlock) → HasProcess k p pcb → p < k.table.next_pid
  pub keyed : (p : ℕ) (pcb : ProcessControlBlock) → HasProcess k p pcb → pcb.pid ≡ p
  pub owned : (i : ℕ) (t : ThreadControlBlock) → ThreadAt k i t → IsOwned k t
  pub present :
      (p tid : ℕ) (pcb : ProcessControlBlock)
      → HasProcess k p pcb
      → has tid pcb.threads ≡ true
      → IsPresent k p tid
