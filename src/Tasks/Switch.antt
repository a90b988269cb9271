-- ===== src/Tasks/Switch.antt =====
-- `tick` on the whole machine: what the next thread goes on with.
use rix_os.Base.{ℕ, ◌<◌, ◌≤◌, ◌≡◌, sym, subst, ◌∙◌, ◌⊎◌, inl, inr, none, length, done, done_eq}
use rix_os.Scheduler.{prepare_switch}
use rix_os.Scheduler.Ready.{slot, NotReady, FirstReady}
use rix_os.Scheduler.Switch.{Switched, SwitchEnds, prepare_switch_lem, slot-lt, slot-ne}
use rix_os.Tasks.{Layout, Machine, tick}
use rix_os.Tasks.Suspended.{Tasks, suspend, Suspends}
use rix_os.Tasks.Call.{HasRoom, task_of, Runs, tick_to}

tick_stays :
    (l : Layout) (back : ℕ) (s : Machine)
    → prepare_switch s.sched ≡ done (s.sched, none)
    → tick l back s ≡ done s
unfolding tick
tick_stays l back s e = rw e

-- How a tick ends, `ts` being the suspended threads before it.
abbrev pub TickEnds : Layout → (back : ℕ) → Machine → Tasks → Type 0
TickEnds l back s ts =
    ((tick l back s ≡ done s) × ((k : ℕ) → 1 ≤ k → k < length s.sched.threads → NotReady s.sched k))
    ⊎ ((i : ℕ) × (s' : Machine) × (tick l back s ≡ done s')
        × FirstReady s.sched 1 i
        × Switched s.sched (slot s.sched i) s'.sched
        × Runs s'.cpu (ts (slot s.sched i))
        × Suspends l s' (suspend s.sched.current (task_of back s.cpu) ts))

-- Where the memory holds every thread but the current one, on stacks and in contexts that do not
-- overlap, and the current stack has room, a tick neither panics nor faults. With no other thread
-- Ready it changes nothing. Else the processor goes on with the first Ready thread going round, its
-- registers, return address and stack pointer being those it was suspended with; the thread that was
-- interrupted is suspended with its own; and every other one stays as it is.
pub tick_resumes :
    (l : Layout) (back : ℕ) (s : Machine) (ts : Tasks)
    → Suspends l s ts
    → HasRoom l s
    → TickEnds l back s ts
tick_resumes l back s ts h room = by_switch (prepare_switch_lem s.sched h.valid)
  where
    by_switch : SwitchEnds s.sched → TickEnds l back s ts
    by_switch (inl (e, idle)) = inl (tick_stays l back s e, idle)
    by_switch (inr (i, sched, e, f, sw)) =
        let (c', e', r, k) =
          tick_to l back s ts (slot s.sched i) h room (slot-lt s.sched i h.valid)
            (slot-ne s.sched i h.valid f.from f.before_end) sched e sw in
        inr (i, _, e', f, sw, r, k)

-- What a tick has led to.
abbrev pub HasTicked : Layout → (back : ℕ) → Machine → Tasks → Machine → Type 0
HasTicked l back s ts s' =
    (s' ≡ s)
    ⊎ ((j : ℕ) × Switched s.sched j s'.sched
        × Runs s'.cpu (ts j)
        × Suspends l s' (suspend s.sched.current (task_of back s.cpu) ts))

pub has_ticked :
    (l : Layout) (back : ℕ) (s s' : Machine) (ts : Tasks)
    → Suspends l s ts
    → HasRoom l s
    → tick l back s ≡ done s'
    → HasTicked l back s ts s'
has_ticked l back s s' ts h room e = elim (tick_resumes l back s ts h room) [
  | inl (e', idle) ↦ inl (done_eq (sym e ∙ e'))
  | inr (i, t, e', f, sw, r, k) ↦
      subst (HasTicked l back s ts) (done_eq (sym e' ∙ e)) (inr (slot s.sched i, sw, r, k))
]
