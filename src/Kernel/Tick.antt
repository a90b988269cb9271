-- ===== src/Kernel/Tick.antt =====
-- A timer tick on the kernel's state, and the current process.
use rix_os.Base.{
  ℕ, ◌≡◌, sym, ap, ◌∙◌, inl, inr, some, some_eq, List, arith, get_elem?, Option-cases, done,
  done_eq, >>=-eq-done, get_elem?_of_lt,
}
use rix_os.Scheduler
use rix_os.Scheduler.{Scheduler, ThreadControlBlock, running}
use rix_os.Scheduler.Ready.{IsValid}
use rix_os.Scheduler.Switch.{identity}
use rix_os.Scheduler.Steps.{tick_ends, tick-identity}
use rix_os.Process
use rix_os.Process.{ProcessControlBlock}
use rix_os.Kernel.{Kernel, tick, current_pid}
use rix_os.Kernel.Consistent.{has, ThreadAt, HasProcess, IsConsistent}

-- A thread after a switch was there before, at the same place and with the same ids; and the other
-- way round.
same_ids :
    (a b : List ThreadControlBlock) (i : ℕ) (u : ThreadControlBlock)
    → identity (get_elem? a i) ≡ identity (get_elem? b i)
    → get_elem? a i ≡ some u
    → (t : ThreadControlBlock) × (get_elem? b i ≡ some t) × (u.tid ≡ t.tid) × (u.pid ≡ t.pid)
same_ids a b i u e at = elim (Option-cases (get_elem? b i)) [
  | inl absent ↦ ground arith
  | inr (t, present) ↦ (
    t,
    present,
    ap (λ (v : ThreadControlBlock). v.tid) (some_eq (equal t present)),
    ap (λ (v : ThreadControlBlock). v.pid) (some_eq (equal t present)),
  )
]
  where
    equal :
        (t : ThreadControlBlock) → get_elem? b i ≡ some t → identity (some u) ≡ identity (some t)
    equal t present = ap identity (sym at) ∙ e ∙ ap identity present

module _ (k : Kernel) (s : Scheduler) (c : IsConsistent k) (v : IsValid s)
    (same : (i : ℕ)
      → identity (get_elem? s.threads i) ≡ identity (get_elem? k.sched.threads i)) where
  before :
      (i : ℕ) (u : ThreadControlBlock)
      → get_elem? s.threads i ≡ some u
      → (t : ThreadControlBlock) × ThreadAt k i t × (u.tid ≡ t.tid) × (u.pid ≡ t.pid)
  before i u at = same_ids s.threads k.sched.threads i u (same i) at

  -- A consistent kernel stays so under a change of the states of its threads.
  restated-IsConsistent : IsConsistent (record k { sched = s })
  restated-IsConsistent = record {
    valid = v;
    unique = λ i j t u at au e.
        let (t', at', et, _) = before i t at in
        let (u', au', eu, _) = before j u au in c.unique i j t' u' at' au' (sym et ∙ e ∙ eu);
    tids_below = λ i u at. let (t, at', e, _) = before i u at in rw e (c.tids_below i t at');
    pids_below = c.pids_below;
    keyed = c.keyed;
    owned = λ i u at.
        let (t, at', e, e') = before i u at in
        let o = c.owned i t at' in
        record {
          owner = o.owner;
          in_table = ap (λ p. Process.get p k.table) e' ∙ o.in_table;
          listed = ap (λ j. has j o.owner.threads) e ∙ o.listed;
        };
    present = λ p tid pcb at h.
        let q = c.present p tid pcb at h in
        let (u, at', e, e') =
          same_ids k.sched.threads s.threads q.place q.thread (sym (same q.place)) q.at in
        record {
          place = q.place;
          thread = u;
          at = at';
          same_tid = sym e ∙ q.same_tid;
          same_pid = sym e' ∙ q.same_pid;
        };
  }

pub tick-done :
    (k : Kernel) (s : Scheduler)
    → Scheduler.tick k.sched ≡ done s
    → tick k ≡ done (record k { sched = s })
unfolding tick
tick-done k s e = rw e

pub sched-tick : (k k' : Kernel) → tick k ≡ done k' → Scheduler.tick k.sched ≡ done k'.sched
unfolding tick
sched-tick k k' e =
    let (s, e', e'') = >>=-eq-done (Scheduler.tick k.sched) _ e in
    e' ∙ ap (λ (q : Kernel). done q.sched) (done_eq e'')

-- A timer tick of a consistent kernel does not panic and leaves a consistent kernel.
pub tick_lem :
    (k : Kernel)
    → IsConsistent k
    → (s : Scheduler) × (tick k ≡ done (record k { sched = s }))
      × (Scheduler.tick k.sched ≡ done s)
      × IsConsistent (record k { sched = s })
tick_lem k c =
    let (s, e, v, how) = tick_ends k.sched c.valid in
    let same = tick-identity k.sched s c.valid e in
    (s, tick-done k s e, e, restated-IsConsistent k s c v same)

-- A thread that is the current one later, with its ids as before, gives its process then.
pub current_pid_later :
    (k k' : Kernel) (j : ℕ) (t : ThreadControlBlock)
    → ThreadAt k j t
    → identity (get_elem? k'.sched.threads j) ≡ identity (get_elem? k.sched.threads j)
    → k'.sched.current ≡ j
    → current_pid k' ≡ done t.pid
unfolding current_pid Scheduler.current_pid
current_pid_later k k' j t at same e =
    let (u, at', tids, pids) = same_ids k.sched.threads k'.sched.threads j t (sym same) at in
    rw (e, at') (ap done (sym pids))

-- In a consistent kernel `current_pid` does not panic, and returns the id of a process in the table.
pub current_pid_lem :
    (k : Kernel)
    → IsConsistent k
    → (p : ℕ) × (pcb : ProcessControlBlock) × (current_pid k ≡ done p) × HasProcess k p pcb
unfolding current_pid Scheduler.current_pid
current_pid_lem k c =
    let (t, at) = get_elem?_of_lt k.sched.threads k.sched.current c.valid.in_range in
    let o = c.owned k.sched.current t at in (t.pid, o.owner, rw at, o.in_table)
