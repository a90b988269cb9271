-- ===== src/Kernel/Exit.antt =====
-- `exit_process` of kernel/src/process.rs.
use native.Mathlib.Decide.{ℕ_discrete}
use rix_os.Base.{
  ℕ, ◌≡◌, refl, sym, ap, subst, ◌∙◌, ◌≢◌, inl, inr, true, false, none, some, some_eq, List, [], ◌∷◌,
  if◌then◌else◌, arith, get_elem?, Bool-cases, Option-cases,
}
use rix_os.Scheduler.{Scheduler, ThreadControlBlock, mark_exited}
use rix_os.Scheduler.Exit.{exit}
use rix_os.Process
use rix_os.Process.{ProcessControlBlock, ProcessState}
use rix_os.Process.Table.{get-update_self, get-update_ne, next_pid-update}
use rix_os.Kernel.{Kernel, exit_all, exit_process, to_zombie}
use rix_os.Kernel.Consistent.{has, ThreadAt, HasProcess, IsOwned, IsPresent, IsConsistent}
use rix_os.Kernel.ExitAll.{exit_all-UniqueTids, exit_all-IsValid, exit_all-at, exit_all-from}

pub exit_process-some :
    (pid code : ℕ) (k : Kernel) (pcb : ProcessControlBlock)
    → HasProcess k pid pcb
    → exit_process pid code k ≡ record k {
      table = Process.update pid (to_zombie code) k.table;
      sched = exit_all pcb.threads k.sched;
    }
unfolding exit_process
exit_process-some pid code k pcb e = rw (e, exit_process)

pub exit_process-none :
    (pid code : ℕ) (k : Kernel) → Process.get pid k.table ≡ none → exit_process pid code k ≡ k
unfolding exit_process
exit_process-none pid code k e = rw (e, exit_process)

-- Whether a thread's id is in the list of a process of a consistent kernel says whether the thread
-- belongs to that process.
listed_of_pid :
    (k : Kernel) (pid i : ℕ) (pcb : ProcessControlBlock) (t : ThreadControlBlock)
    → IsConsistent k
    → HasProcess k pid pcb
    → ThreadAt k i t
    → t.pid ≡ pid
    → has t.tid pcb.threads ≡ true
listed_of_pid k pid i pcb t c e at same =
    let o = c.owned i t at in
    let eq : o.owner ≡ pcb = some_eq (sym o.in_table ∙ ap (λ p. Process.get p k.table) same ∙ e) in
    subst (λ (q : ProcessControlBlock). has t.tid q.threads ≡ true) eq o.listed

not_listed_of_pid :
    (k : Kernel) (pid i : ℕ) (pcb : ProcessControlBlock) (t : ThreadControlBlock)
    → IsConsistent k
    → HasProcess k pid pcb
    → ThreadAt k i t
    → t.pid ≢ pid
    → has t.tid pcb.threads ≡ false
not_listed_of_pid k pid i pcb t c e at ne = elim (Bool-cases (has t.tid pcb.threads)) [
  | inl h ↦
      let p = c.present pid t.tid pcb e h in
      let place = c.unique p.place i p.thread t p.at at p.same_tid in
      absurd (
        ne (
          ap (λ (u : ThreadControlBlock). u.pid)
            (some_eq (sym at ∙ ap (get_elem? k.sched.threads) (sym place) ∙ p.at))
          ∙ p.same_pid))
  | inr h ↦ h
]

-- What `exit_process` leads to.
pub record HasExited (pid code : ℕ) (pcb : ProcessControlBlock) (k k' : Kernel) : Type 0 where
  pub zombie : HasProcess k' pid (to_zombie code pcb)
  pub other_processes : (p : ℕ) → p ≢ pid → Process.get p k'.table ≡ Process.get p k.table
  pub its_threads :
      (i : ℕ) (t : ThreadControlBlock) → ThreadAt k i t → t.pid ≡ pid → ThreadAt k' i (exit t)
  pub other_threads :
      (i : ℕ) (t : ThreadControlBlock) → ThreadAt k i t → t.pid ≢ pid → ThreadAt k' i t

HasExited-record :
    (pid code : ℕ) (k : Kernel) (pcb : ProcessControlBlock)
    → IsConsistent k
    → HasProcess k pid pcb
    → HasExited pid code pcb k (record k {
      table = Process.update pid (to_zombie code) k.table;
      sched = exit_all pcb.threads k.sched;
    })
HasExited-record pid code k pcb c e = record {
  zombie = get-update_self pid (to_zombie code) k.table pcb e;
  other_processes = λ p ne. get-update_ne pid p (to_zombie code) k.table ne;
  its_threads = λ i t at same.
      exit_all-at pcb.threads k.sched i t c.unique at
      ∙ rw (listed_of_pid k pid i pcb t c e at same);
  other_threads = λ i t at ne.
      exit_all-at pcb.threads k.sched i t c.unique at
      ∙ rw (not_listed_of_pid k pid i pcb t c e at ne);
}

-- In a consistent kernel `exit_process` of a process in the table makes it a zombie with the exit
-- code, makes each of its threads Exited and keeps their other fields, and changes no other process
-- and no thread of another process.
pub exit_process_lem :
    (pid code : ℕ) (k : Kernel) (pcb : ProcessControlBlock)
    → IsConsistent k
    → HasProcess k pid pcb
    → HasExited pid code pcb k (exit_process pid code k)
exit_process_lem pid code k pcb c e =
    subst (HasExited pid code pcb k) (sym (exit_process-some pid code k pcb e))
      (HasExited-record pid code k pcb c e)

-- The process under an id after the update, in terms of the one before.
update_from :
    (pid code p : ℕ) (k : Kernel) (pcb q : ProcessControlBlock)
    → HasProcess k pid pcb
    → Process.get p (Process.update pid (to_zombie code) k.table) ≡ some q
    → (q' : ProcessControlBlock) × HasProcess k p q' × (q.pid ≡ q'.pid) × (q.threads ≡ q'.threads)
update_from pid code p k pcb q e at = elim (ℕ_discrete p pid) [
  | yes same ↦
      let eq : q ≡ to_zombie code pcb = some_eq (
        sym at
        ∙ ap (λ j. Process.get j (Process.update pid (to_zombie code) k.table)) same
        ∙ get-update_self pid (to_zombie code) k.table pcb e) in
      (
        pcb,
        ap (λ j. Process.get j k.table) same ∙ e,
        ap (λ (x : ProcessControlBlock). x.pid) eq,
        ap (λ (x : ProcessControlBlock). x.threads) eq,
      )
  | no ne ↦ (q, sym (get-update_ne pid p (to_zombie code) k.table ne) ∙ at, refl, refl)
]

exited-IsOwned :
    (pid code : ℕ) (k : Kernel) (pcb : ProcessControlBlock) (t u : ThreadControlBlock)
    → HasProcess k pid pcb
    → u.tid ≡ t.tid
    → u.pid ≡ t.pid
    → IsOwned k t
    → IsOwned
        (record k {
          table = Process.update pid (to_zombie code) k.table;
          sched = exit_all pcb.threads k.sched;
        })
        u
exited-IsOwned pid code k pcb t u e same_tid same_pid o = elim (ℕ_discrete t.pid pid) [
  | yes same ↦ record {
    owner = to_zombie code pcb;
    in_table = rw (same_pid, same) (get-update_self pid (to_zombie code) k.table pcb e);
    listed =
        let eq : o.owner ≡ pcb =
          some_eq (sym o.in_table ∙ ap (λ j. Process.get j k.table) same ∙ e) in
        ap (λ j. has j pcb.threads) same_tid
        ∙ subst (λ (q : ProcessControlBlock). has t.tid q.threads ≡ true) eq o.listed;
  }
  | no ne ↦ record {
    owner = o.owner;
    in_table = rw same_pid (get-update_ne pid t.pid (to_zombie code) k.table ne ∙ o.in_table);
    listed = ap (λ j. has j o.owner.threads) same_tid ∙ o.listed;
  }
]

exited-IsPresent :
    (pid code p tid : ℕ) (k : Kernel) (pcb : ProcessControlBlock)
    → IsConsistent k
    → IsPresent k p tid
    → IsPresent
        (record k {
          table = Process.update pid (to_zombie code) k.table;
          sched = exit_all pcb.threads k.sched;
        })
        p
        tid
exited-IsPresent pid code p tid k pcb c h = record {
  place = h.place;
  thread = if has h.thread.tid pcb.threads then exit h.thread else h.thread;
  at = exit_all-at pcb.threads k.sched h.place h.thread c.unique h.at;
  same_tid = ground (arith, h.same_tid);
  same_pid = ground (arith, h.same_pid);
}

-- `exit_process` keeps the kernel consistent, whether the process is in the table or not.
pub exit_process-IsConsistent :
    (pid code : ℕ) (k : Kernel) → IsConsistent k → IsConsistent (exit_process pid code k)
exit_process-IsConsistent pid code k c = elim (Option-cases (Process.get pid k.table)) [
  | inl e ↦ subst IsConsistent (sym (exit_process-none pid code k e)) c
  | inr (pcb, e) ↦ subst IsConsistent (sym (exit_process-some pid code k pcb e)) (record {
    valid = exit_all-IsValid pcb.threads k.sched c.valid;
    unique = exit_all-UniqueTids pcb.threads k.sched c.unique;
    tids_below = λ i u at.
        let (t, at', same, _) = exit_all-from pcb.threads k.sched i u at in
        rw same (c.tids_below i t at');
    pids_below = λ p q at.
        let (q', at', _, _) = update_from pid code p k pcb q e at in
        rw (next_pid-update pid (to_zombie code) k.table) (c.pids_below p q' at');
    keyed = λ p q at.
        let (q', at', same, _) = update_from pid code p k pcb q e at in same ∙ c.keyed p q' at';
    owned = λ i u at.
        let (t, at', same, same') = exit_all-from pcb.threads k.sched i u at in
        exited-IsOwned pid code k pcb t u e same same' (c.owned i t at');
    present = λ p tid q at h.
        let (q', at', _, same) = update_from pid code p k pcb q e at in
        exited-IsPresent pid code p tid k pcb c
          (c.present p tid q' at' (ap (has tid) (sym same) ∙ h));
  })
]

current-exit_all : (tids : List ℕ) (s : Scheduler) → (exit_all tids s).current ≡ s.current
unfolding exit_all mark_exited
current-exit_all [] s = refl
current-exit_all (tid ∷ tids) s = current-exit_all tids (mark_exited tid s)

-- `exit_process` does not move the processor to another thread.
pub exit_process-current :
    (pid code : ℕ) (k : Kernel) → (exit_process pid code k).sched.current ≡ k.sched.current
exit_process-current pid code k = elim (Option-cases (Process.get pid k.table)) [
  | inl e ↦ ap (λ (q : Kernel). q.sched.current) (exit_process-none pid code k e)
  | inr (pcb, e) ↦
      ap (λ (q : Kernel). q.sched.current) (exit_process-some pid code k pcb e)
      ∙ current-exit_all pcb.threads k.sched
]
