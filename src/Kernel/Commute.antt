-- ===== src/Kernel/Commute.antt =====
-- The order of two `exit_process` of kernel/src/process.rs.
use rix_os.Base.{
  ℕ, ◌≡◌, refl, sym, ap, ap₂, ◌∙◌, ◌≢◌, inl, inr, none, List, [], ◌∷◌, arith, Option-cases, ◌⊎◌,
}
use rix_os.Scheduler.{Scheduler, ThreadControlBlock, exit_first, mark_exited}
use rix_os.Process
use rix_os.Process.{ProcessControlBlock, ProcessTable}
use rix_os.Process.Table.{get-update_ne}
use rix_os.Process.Canonical.{IsOrdered, update_comm}
use rix_os.Machine.{Memory}
use rix_os.Kernel.History.{KernelReach}
use rix_os.Kernel.Ordered.{init-IsOrdered, KernelReach-IsOrdered}
use rix_os.Kernel.{Kernel, Supply, boot, init, exit_all, exit_process, to_zombie}
use rix_os.Kernel.Consistent.{HasProcess}
use rix_os.Kernel.Exit.{exit_process-none, exit_process-some}

exit_first_comm :
    (a b : ℕ) (ts : List ThreadControlBlock)
    → exit_first a (exit_first b ts) ≡ exit_first b (exit_first a ts)
unfolding exit_first
exit_first_comm a b [] = refl
exit_first_comm a b (t ∷ ts) = ground (arith, exit_first_comm a b ts)

mark_exited_comm :
    (a b : ℕ) (s : Scheduler) → mark_exited a (mark_exited b s) ≡ mark_exited b (mark_exited a s)
unfolding mark_exited
mark_exited_comm a b s =
    ap (λ ts. record { threads = ts; current = s.current }) (exit_first_comm a b s.threads)

exit_all-mark_exited :
    (tids : List ℕ) (b : ℕ) (s : Scheduler)
    → exit_all tids (mark_exited b s) ≡ mark_exited b (exit_all tids s)
unfolding exit_all
exit_all-mark_exited [] b s = refl
exit_all-mark_exited (a ∷ tids) b s =
    ap (exit_all tids) (mark_exited_comm a b s) ∙ exit_all-mark_exited tids b (mark_exited a s)

exit_all_comm :
    (us bs : List ℕ) (s : Scheduler) → exit_all us (exit_all bs s) ≡ exit_all bs (exit_all us s)
unfolding exit_all
exit_all_comm us [] s = refl
exit_all_comm us (b ∷ bs) s =
    exit_all_comm us bs (mark_exited b s) ∙ ap (exit_all bs) (exit_all-mark_exited us b s)

-- The kernel after the exit of a process that is in the table.
abbrev exited : (pid code : ℕ) → ProcessControlBlock → Kernel → Kernel
exited pid code pcb k = record k {
  table = Process.update pid (to_zombie code) k.table;
  sched = exit_all pcb.threads k.sched;
}

get-exit_process :
    (p q code : ℕ) (k : Kernel)
    → p ≢ q
    → Process.get p (exit_process q code k).table ≡ Process.get p k.table
get-exit_process p q code k ne = elim (Option-cases (Process.get q k.table)) [
  | inl e ↦ ap (λ (l : Kernel). Process.get p l.table) (exit_process-none q code k e)
  | inr (pcb, e) ↦
      ap (λ (l : Kernel). Process.get p l.table) (exit_process-some q code k pcb e)
      ∙ get-update_ne q p (to_zombie code) k.table ne
]

exit_process-swap :
    (p q c d : ℕ) (k : Kernel)
    → IsOrdered k.table
    → p ≢ q
    → exit_process p c (exit_process q d k) ≡ exit_process q d (exit_process p c k)
exit_process-swap p q c d k s ne =
    by_tables (Option-cases (Process.get p k.table)) (Option-cases (Process.get q k.table))
  where
    absent :
        (p q c d : ℕ)
        → p ≢ q
        → Process.get p k.table ≡ none
        → exit_process p c (exit_process q d k) ≡ exit_process q d (exit_process p c k)
    absent p q c d ne e =
        exit_process-none p c (exit_process q d k) (get-exit_process p q d k ne ∙ e)
        ∙ ap (exit_process q d) (sym (exit_process-none p c k e))

    by_tables :
        (Process.get p k.table ≡ none) ⊎ ((a : ProcessControlBlock) × HasProcess k p a)
        → (Process.get q k.table ≡ none) ⊎ ((b : ProcessControlBlock) × HasProcess k q b)
        → exit_process p c (exit_process q d k) ≡ exit_process q d (exit_process p c k)
    by_tables (inl e) _ = absent p q c d ne e
    by_tables (inr a) (inl e) = sym (absent q p d c (λ e. ne (sym e)) e)
    by_tables (inr (a, ea)) (inr (b, eb)) =
        exit_process-some p c (exit_process q d k) a (get-exit_process p q d k ne ∙ ea)
        ∙ ap (exited p c a) (exit_process-some q d k b eb)
        ∙ ap₂ (λ t s. record k { table = t; sched = s })
            (update_comm p q (to_zombie c) (to_zombie d) k.table s ne)
            (exit_all_comm a.threads b.threads k.sched)
        ∙ ap (exited q d b) (sym (exit_process-some p c k a ea))
        ∙ sym (
            exit_process-some q d (exit_process p c k) b
              (get-exit_process q p c k (λ e. ne (sym e)) ∙ eb))

-- In every kernel that `scheduler::init` and any ticks, new processes and exits lead to, two
-- processes end in the same kernel whichever `exit_process` comes first.
pub exit_process_comm :
    (x y : Supply) (demo_task_a demo_task_b : ℕ) (m : Memory) (p q c d : ℕ) (k : Kernel)
    → KernelReach (init x y demo_task_a demo_task_b (boot m)) k
    → p ≢ q
    → exit_process p c (exit_process q d k) ≡ exit_process q d (exit_process p c k)
exit_process_comm x y demo_task_a demo_task_b m p q c d k r ne =
    exit_process-swap p q c d k
      (KernelReach-IsOrdered (init-IsOrdered x y demo_task_a demo_task_b m) r) ne
