-- ===== src/Kernel/Ordered.antt =====
-- The table of processes stays in the order of its keys.
use Prim.Native.String.{String}
use rix_os.Base.{ℕ, ◌≡◌, sym, subst, inl, inr, Option-cases, done, done_eq, >>=-eq-done}
use rix_os.Machine.{Memory}
use rix_os.Scheduler
use rix_os.Process
use rix_os.Process.Canonical.{IsOrdered, insert-IsOrdered, update-IsOrdered}
use rix_os.Kernel.{
  Kernel, Supply, boot, init, init_idle, create_process, register, spawn_thread, new_process,
  kernel_process, exit_process, to_zombie, tick,
}
use rix_os.Kernel.Exit.{exit_process-none, exit_process-some}
use rix_os.Kernel.History.{KernelStep, KernelReach}

create_process-IsOrdered :
    (x : Supply) (name : String) (entry_fn : ℕ) (k : Kernel)
    → IsOrdered k.table
    → IsOrdered (create_process x name entry_fn k).0.table
unfolding create_process register spawn_thread Process.alloc_pid
create_process-IsOrdered x name entry_fn k s =
    update-IsOrdered k.table.next_pid _ _
      (insert-IsOrdered (new_process x k.table.next_pid name) _ s)

exit_process-IsOrdered :
    (pid code : ℕ) (k : Kernel) → IsOrdered k.table → IsOrdered (exit_process pid code k).table
exit_process-IsOrdered pid code k s = elim (Option-cases (Process.get pid k.table)) [
  | inl e ↦ subst (λ (l : Kernel). IsOrdered l.table) (sym (exit_process-none pid code k e)) s
  | inr (pcb, e) ↦
      subst (λ (l : Kernel). IsOrdered l.table) (sym (exit_process-some pid code k pcb e))
        (update-IsOrdered pid (to_zombie code) k.table s)
]

tick-IsOrdered : (k k' : Kernel) → tick k ≡ done k' → IsOrdered k.table → IsOrdered k'.table
unfolding tick
tick-IsOrdered k k' e s =
    let (sched, ticked, same) = >>=-eq-done (Scheduler.tick k.sched) _ e in
    subst (λ (l : Kernel). IsOrdered l.table) (done_eq same) s

pub init-IsOrdered :
    (x y : Supply) (demo_task_a demo_task_b : ℕ) (m : Memory)
    → IsOrdered (init x y demo_task_a demo_task_b (boot m)).table
unfolding init init_idle boot Process.alloc_pid Process.new
init-IsOrdered x y demo_task_a demo_task_b m =
    create_process-IsOrdered y "demo_b" demo_task_b _ (
      create_process-IsOrdered x "demo_a" demo_task_a _
        (insert-IsOrdered (kernel_process x 0) _ tt))

-- After `scheduler::init` and any timer ticks, new processes and exits, in any order, the keys of the
-- process table ascend.
pub KernelReach-IsOrdered :
    {k k' : Kernel} → IsOrdered k.table → KernelReach k k' → IsOrdered k'.table
KernelReach-IsOrdered s KernelReach.here = s
KernelReach-IsOrdered s (KernelReach.next r st) = by_step st (KernelReach-IsOrdered s r)
  where
    by_step : {k k' : Kernel} → KernelStep k k' → IsOrdered k.table → IsOrdered k'.table
    by_step (KernelStep.timer e) s = tick-IsOrdered _ _ e s
    by_step (KernelStep.create x name entry_fn room) s =
        create_process-IsOrdered x name entry_fn _ s
    by_step (KernelStep.exit pid code) s = exit_process-IsOrdered pid code _ s
