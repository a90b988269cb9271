-- ===== src/Kernel/Init.antt =====
-- `scheduler::init` of kernel/src/scheduler.rs and the invariant.
use Prim.Native.String.{String}
use rix_os.Base.{
  ◌≤◌, ℕ, zero, suc, ◌≡◌, refl, sym, ap, subst, ◌∙◌, true, some_eq, [], ◌∷◌, arith, length,
}
use rix_os.Machine.{Memory}
use rix_os.Scheduler
use rix_os.Scheduler.{Scheduler, ThreadControlBlock, running, ready}
use rix_os.Scheduler.Ready.{IsValid}
use rix_os.Thread as Thread
use rix_os.Process
use rix_os.Process.{ProcessControlBlock}
use rix_os.Kernel.{
  Kernel, Supply, boot, init_idle, init, create_process, register, spawn_thread, idle,
  kernel_process,
}
use rix_os.Kernel.Consistent.{has, ThreadAt, HasProcess, IsOwned, IsConsistent}
use rix_os.Kernel.Create.{HasRoom, created, create_process-eq, next_pid-created, threads-created}
use rix_os.Kernel.Create.Keeps.{create_process-IsConsistent}

module _ (x : Supply) (m : Memory) where
  -- The kernel with the idle thread only.
  abbrev first : Kernel
  first = init_idle x (boot m)

  first_thread : (i : ℕ) (t : ThreadControlBlock) → ThreadAt first i t → (i ≡ 0) × (idle ≡ t)
  unfolding init_idle boot Process.alloc_pid Process.new Process.insert Scheduler.new
      Scheduler.add_thread
  first_thread zero t at = (refl, some_eq at)
  first_thread (suc i) t at = cc

  idle_place : ThreadAt first 0 idle
  unfolding init_idle boot Process.alloc_pid Scheduler.new Scheduler.add_thread
  idle_place = refl

  first_process :
      (p : ℕ) (q : ProcessControlBlock) → HasProcess first p q → (p ≡ 0) × (kernel_process x 0 ≡ q)
  unfolding init_idle boot Process.alloc_pid Process.new Process.insert Process.get
      Process.insert_entry Process.find_entry
  first_process zero q at = (refl, some_eq at)
  first_process (suc p) q at = absurd (ground arith)

  kernel_place : HasProcess first 0 (kernel_process x 0)
  unfolding init_idle boot Process.alloc_pid Process.new Process.insert Process.get
      Process.insert_entry Process.find_entry
  kernel_place = refl

  pub first-IsValid : IsValid first.sched
  unfolding init_idle boot Process.alloc_pid Scheduler.new Scheduler.add_thread
  first-IsValid = record {
    in_range = omega arith;
    small = omega arith;
    only_current = elim [ zero ↦ λ r. refl | suc k ↦ λ r. cc ];
  }

  first_counters : (first.next_tid ≡ 1) × (first.table.next_pid ≡ 1)
  unfolding init_idle boot Process.alloc_pid Process.new Process.insert
  first_counters = (refl, refl)

  first-IsConsistent : IsConsistent first
  first-IsConsistent = record {
    valid = first-IsValid;
    unique = λ i j t u at au same. (first_thread i t at).0 ∙ sym (first_thread j u au).0;
    tids_below = λ i t at.
        omega
          (arith, ap (λ (v : ThreadControlBlock). v.tid) (first_thread i t at).1, first_counters);
    pids_below = λ p q at. omega (arith, (first_process p q at).0, first_counters);
    keyed = λ p q at.
        ap (λ (v : ProcessControlBlock). v.pid) (sym (first_process p q at).1)
        ∙ sym (first_process p q at).0;
    owned = λ i t at.
        subst (IsOwned first) (first_thread i t at).1
          (record { owner = kernel_process x 0; in_table = kernel_place; listed = refl });
    present = λ p tid q at h.
        let (zero_pid, same) = first_process p q at in
        record {
          place = 0;
          thread = idle;
          at = idle_place;
          same_tid = listed_zero tid (ap (λ (v : ProcessControlBlock). has tid v.threads) same ∙ h);
          same_pid = sym zero_pid;
        };
  }
    where
      listed_zero : (tid : ℕ) → has tid (0 ∷ []) ≡ true → 0 ≡ tid
      listed_zero tid e = ground arith

  first-HasRoom : HasRoom first
  unfolding init_idle boot Process.alloc_pid Process.new Process.insert Scheduler.new
      Scheduler.add_thread
  first-HasRoom = omega arith

  -- After the first demo process.
  second_counters :
      (name : String) (entry_fn : ℕ)
      → let k = (create_process x name entry_fn first).0 in
        (k.next_tid ≡ 2) × (k.table.next_pid ≡ 2) × (length k.sched.threads ≡ 2)
  second_counters name entry_fn = rw (create_process-eq x name entry_fn first) (
    unfold created init_idle boot in omega arith,
    next_pid-created x name entry_fn first ∙ rw first_counters.1,
    ap length (threads-created x name entry_fn first)
        ∙ (unfold init_idle boot Scheduler.new Scheduler.add_thread in refl),
  )

-- `scheduler::init` on a kernel just booted leads to a consistent kernel.
pub init-IsConsistent :
    (x y : Supply) (demo_task_a demo_task_b : ℕ) (m : Memory)
    → IsConsistent (init x y demo_task_a demo_task_b (boot m))
unfolding init
init-IsConsistent x y demo_task_a demo_task_b m =
    let (tids, pids, threads) = second_counters x m "demo_a" demo_task_a in
    create_process-IsConsistent y "demo_b" demo_task_b _
      (create_process-IsConsistent x "demo_a" demo_task_a (first x m) (first-IsConsistent x m)
        (first-HasRoom x m))
      (record {
        tids = omega (arith, tids);
        pids = omega (arith, pids);
        threads = omega (arith, threads);
      })

-- The idle thread on the processor, and behind it the Ready threads of the processes 1 and 2.
pub record HasDemos (k : Kernel) : Type 0 where
  pub current : k.sched.current ≡ 0
  pub threads : length k.sched.threads ≡ 3
  pub demo :
      (j : ℕ)
      → 1 ≤ j
      → j ≤ 2
      → (t : ThreadControlBlock) × ThreadAt k j t × (t.state ≡ ready) × (t.pid ≡ j)

pub init-HasDemos :
    (x y : Supply) (demo_task_a demo_task_b : ℕ) (m : Memory)
    → HasDemos (init x y demo_task_a demo_task_b (boot m))
unfolding init create_process register spawn_thread init_idle boot Scheduler.new
    Scheduler.add_thread Thread.new Process.alloc_pid Process.insert Process.new Process.update
    Process.find_entry Process.insert_entry
init-HasDemos x y demo_task_a demo_task_b m = record {
  current = refl;
  threads = refl;
  demo = elim [
    | zero ↦ λ lo hi. absurd (omega arith)
    | suc zero ↦ λ lo hi. (_, refl, refl, refl)
    | suc (suc zero) ↦ λ lo hi. (_, refl, refl, refl)
    | suc (suc (suc j)) ↦ λ lo hi. absurd (omega arith)
  ];
}
