-- ===== src/Kernel/Create.antt =====
-- `create_process` of kernel/src/process.rs, its steps in one.
pub mod Keeps
use native.Mathlib.Decide.{ℕ_discrete}
use Prim.Native.String.{String}
use rix_os.Base.{
  ℕ, zero, suc, ◌+◌, ◌^◌, ◌<◌, ◌≡◌, refl, sym, ap, subst, ◌∙◌, ◌≢◌, ◌⊎◌, inl, inr, Bool, true,
  false, ◌||◌, Option, none, some, some_eq, List, [], ◌∷◌, ◌++◌, ◌==◌, ==_refl, if◌then◌else◌,
  arith, length, get_elem?, Bool-cases, Option-cases, u64, get_elem?-append_left,
  get_elem?-append_last, lt-of_get_elem?,
}
use rix_os.Scheduler
use rix_os.Scheduler.{Scheduler, ThreadControlBlock, ready}
use rix_os.Scheduler.Ready.{IsValid}
use rix_os.Scheduler.Exit.{UniqueTids}
use rix_os.Scheduler.Steps.{add_thread-IsValid, add_thread_place}
use rix_os.Thread
use rix_os.Process
use rix_os.Process.{ProcessControlBlock, ProcessState, ProcessTable}
use rix_os.Process.Table.{get-insert, get-update_self, get-update_ne, next_pid-update}
use rix_os.Kernel.{Kernel, Supply, spawn_thread, register, create_process, new_process, push_thread}
use rix_os.Kernel.Consistent.{
  has, has-append, ThreadAt, HasProcess, IsOwned, IsPresent, IsConsistent,
}

-- Neither id counter wraps at the next id, and the list of threads has room.
pub record HasRoom (k : Kernel) : Type 0 where
  pub tids : k.next_tid + 1 < 2 ^ 64
  pub pids : k.table.next_pid + 1 < 2 ^ 64
  pub threads : length k.sched.threads < 2 ^ 63

module _ (x : Supply) (name : String) (entry_fn : ℕ) (k : Kernel) where
  -- The main thread, and the process with it.
  abbrev pub main_thread : ThreadControlBlock
  main_thread = (Thread.new x.trampoline k.table.next_pid entry_fn x.stack k.memory k.next_tid).tcb

  abbrev pub main_process : ProcessControlBlock
  main_process = push_thread k.next_tid (new_process x k.table.next_pid name)

  -- The table with the new process, before its thread is recorded.
  unfoldable pub registered : ProcessTable
  registered = (register x name k).0.table

  get-registered :
      (p : ℕ)
      → Process.get p registered ≡ (
          if k.table.next_pid == p
          then some (new_process x k.table.next_pid name)
          else Process.get p k.table)
  unfolding registered register Process.alloc_pid Process.get Process.insert
  get-registered p =
      get-insert (new_process x k.table.next_pid name)
        (record k.table { next_pid = u64 (k.table.next_pid + 1) }) p

  -- The kernel after `create_process`.
  unfoldable pub created : Kernel
  created = record {
    table = Process.update k.table.next_pid (push_thread k.next_tid) registered;
    sched = Scheduler.add_thread main_thread k.sched;
    next_tid = u64 (k.next_tid + 1);
    memory = (Thread.new x.trampoline k.table.next_pid entry_fn x.stack k.memory k.next_tid).memory;
  }

  pub create_process-eq : create_process x name entry_fn k ≡ (created, k.table.next_pid)
  unfolding create_process register spawn_thread created registered Process.alloc_pid Thread.new
  create_process-eq = refl

  -- What the new table holds under an id.
  pub get-created :
      (p : ℕ)
      → Process.get p created.table
        ≡ (if k.table.next_pid == p then some main_process else Process.get p k.table)
  unfolding created
  get-created p = elim (ℕ_discrete p k.table.next_pid) [
    | yes e ↦
        rw (e, ==_refl k.table.next_pid)
          (get-update_self k.table.next_pid (push_thread k.next_tid) registered
            (new_process x k.table.next_pid name)
            (get-registered k.table.next_pid ∙ rw (==_refl k.table.next_pid)))
    | no ne ↦
        get-update_ne k.table.next_pid p (push_thread k.next_tid) registered ne
        ∙ get-registered p
        ∙ ground arith
  ]

  pub next_pid-created : created.table.next_pid ≡ u64 (k.table.next_pid + 1)
  unfolding created registered register Process.alloc_pid Process.insert
  next_pid-created = next_pid-update k.table.next_pid (push_thread k.next_tid) registered

  pub threads-created : created.sched.threads ≡ k.sched.threads ++ main_thread ∷ []
  unfolding created Scheduler.add_thread
  threads-created = refl

  -- A thread of the new kernel is one of the old kernel, at the same place, or the new one.
  pub thread-created :
      (i : ℕ) (t : ThreadControlBlock)
      → get_elem? created.sched.threads i ≡ some t
      → ThreadAt k i t ⊎ ((i ≡ length k.sched.threads) × (t ≡ main_thread))
  unfolding created Scheduler.add_thread
  thread-created i t at = elim (add_thread_place k.sched main_thread i) [
    | inl e ↦ inl (sym e ∙ at)
    | inr (place, e) ↦ inr (place, some_eq (sym at ∙ e))
  ]

  pub new_tid : (main_thread).tid ≡ k.next_tid
  unfolding Thread.new
  new_tid = refl

  pub new_pid : (main_thread).pid ≡ k.table.next_pid
  unfolding Thread.new
  new_pid = refl

  pub new_state : (main_thread).state ≡ ready
  unfolding Thread.new
  new_state = refl
