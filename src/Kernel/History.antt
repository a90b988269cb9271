-- ===== src/Kernel/History.antt =====
-- Every history of the kernel: timer ticks, new processes and exits, in any order.
use Prim.Native.String.{String}
use rix_os.Base.{
  ℕ, ◌≡◌, sym, ap, subst, ◌∙◌, ◌≢◌, inl, inr, List, [], ◌∷◌, Option-cases, done, done_eq,
}
use rix_os.Scheduler.{Scheduler, ThreadControlBlock}
use rix_os.Scheduler.Ready.{state_of}
use rix_os.Scheduler.Steps.{Reach, Step, IsGone, Reach-IsGone}
use rix_os.Process
use rix_os.Process.{ProcessControlBlock}
use rix_os.Kernel.{Kernel, Supply, create_process, exit_process, exit_all, tick}
use rix_os.Kernel.Consistent.{ThreadAt, HasProcess, IsConsistent}
use rix_os.Kernel.Create.{HasRoom, created, create_process-eq, main_thread, new_state}
use rix_os.Kernel.Create.Keeps.{create_process-IsConsistent}
use rix_os.Kernel.Exit.{
  exit_process-IsConsistent, exit_process_lem, exit_process-none, exit_process-some,
  exit_process-current,
}
use rix_os.Kernel.Tick.{tick_lem}

-- One operation on the kernel's shared state.
pub data KernelStep (k : Kernel) : Kernel → Type 0 where
  timer : {k' : Kernel} → tick k ≡ done k' → KernelStep k k'
  create :
      (x : Supply) (name : String) (entry_fn : ℕ)
      → HasRoom k
      → KernelStep k (create_process x name entry_fn k).0
  exit : (pid code : ℕ) → KernelStep k (exit_process pid code k)

pub data KernelReach (k : Kernel) : Kernel → Type 0 where
  here : KernelReach k k
  next : {k' k'' : Kernel} → KernelReach k k' → KernelStep k' k'' → KernelReach k k''

pub KernelStep-IsConsistent : {k k' : Kernel} → KernelStep k k' → IsConsistent k → IsConsistent k'
KernelStep-IsConsistent {k} (timer {k' = k'} e) c =
    let (s, e', _, c') = tick_lem k c in subst IsConsistent (done_eq (sym e' ∙ e)) c'
KernelStep-IsConsistent {k} (create x name entry_fn room) c =
    create_process-IsConsistent x name entry_fn k c room
KernelStep-IsConsistent {k} (exit pid code) c = exit_process-IsConsistent pid code k c

-- Timer ticks, new processes and exits, in any order, keep the invariant between the threads, the
-- processes and the id counters.
pub KernelReach-IsConsistent : {k k' : Kernel} → IsConsistent k → KernelReach k k' → IsConsistent k'
KernelReach-IsConsistent c here = c
KernelReach-IsConsistent c (next r st) = KernelStep-IsConsistent st (KernelReach-IsConsistent c r)

KernelReach-append : {s t u : Scheduler} → Reach s t → Reach t u → Reach s u
KernelReach-append r Reach.here = r
KernelReach-append r (Reach.next q st) = Reach.next (KernelReach-append r q) st

-- What the kernel does to its scheduler is a history of the scheduler.
exit_all-Reach : (tids : List ℕ) (s : Scheduler) → Reach s (exit_all tids s)
unfolding exit_all
exit_all-Reach [] s = Reach.here
exit_all-Reach (tid ∷ tids) s =
    KernelReach-append (Reach.next Reach.here (Step.exit tid)) (exit_all-Reach tids _)

create_process-Reach :
    (x : Supply) (name : String) (entry_fn : ℕ) (k : Kernel)
    → HasRoom k
    → Reach k.sched (create_process x name entry_fn k).0.sched
create_process-Reach x name entry_fn k room = rw (create_process-eq x name entry_fn k) (
    unfold created in
    Reach.next Reach.here
      (Step.add (main_thread x name entry_fn k) (new_state x name entry_fn k) room.threads))

exit_process-Reach : (pid code : ℕ) (k : Kernel) → Reach k.sched (exit_process pid code k).sched
exit_process-Reach pid code k = elim (Option-cases (Process.get pid k.table)) [
  | inl e ↦
      subst (λ (q : Kernel). Reach k.sched q.sched) (sym (exit_process-none pid code k e))
        Reach.here
  | inr (pcb, e) ↦
      subst (λ (q : Kernel). Reach k.sched q.sched) (sym (exit_process-some pid code k pcb e))
        (exit_all-Reach pcb.threads k.sched)
]

KernelStep-Reach : {k k' : Kernel} → IsConsistent k → KernelStep k k' → Reach k.sched k'.sched
KernelStep-Reach {k} c (timer {k' = k'} e) =
    let (s, e', e'', _) = tick_lem k c in
    subst (λ (q : Kernel). Reach k.sched q.sched) (done_eq (sym e' ∙ e))
      (Reach.next Reach.here (Step.timer e''))
KernelStep-Reach {k} c (create x name entry_fn room) = create_process-Reach x name entry_fn k room
KernelStep-Reach {k} c (exit pid code) = exit_process-Reach pid code k

pub KernelReach-Reach : {k k' : Kernel} → IsConsistent k → KernelReach k k' → Reach k.sched k'.sched
KernelReach-Reach c here = Reach.here
KernelReach-Reach c (next r st) =
    KernelReach-append (KernelReach-Reach c r) (KernelStep-Reach (KernelReach-IsConsistent c r) st)

-- Once `exit_process` has run in a consistent kernel, no thread of the process but the one that holds
-- the processor ever runs again: it stays Exited and off the processor in every later history.
pub exited_process-IsGone :
    (pid code : ℕ) (k k' : Kernel) (pcb : ProcessControlBlock) (i : ℕ) (t : ThreadControlBlock)
    → IsConsistent k
    → HasProcess k pid pcb
    → ThreadAt k i t
    → t.pid ≡ pid
    → i ≢ k.sched.current
    → KernelReach (exit_process pid code k) k'
    → IsGone k'.sched i
exited_process-IsGone pid code k k' pcb i t c e at same ne r =
    let c' = exit_process-IsConsistent pid code k c in
    let w = exit_process_lem pid code k pcb c e in
    Reach-IsGone i c'.valid
      (ap state_of (w.its_threads i t at same), λ eq. ne (eq ∙ exit_process-current pid code k))
      (KernelReach-Reach c' r)
