-- ===== src/Scheduler/Steps.antt =====
-- Every history of a scheduler: threads added, timer ticks and exits, in any order.
use native.Mathlib.Decide.{ℕ_discrete}
use rix_os.Base.{
  ℕ, zero, suc, ◌^◌, ◌≤◌, ◌<◌, ◌≡◌, refl, ap, sym, ◌∙◌, ◌≢◌, ◌⊎◌, inl, inr, subst, none, some, List,
  [], ◌∷◌, ◌++◌, arith, length, get_elem?, length-append, get_elem?-append_left, done, done_eq,
}
use rix_os.Scheduler.{
  ready, running, exited, ThreadControlBlock, Scheduler, add_thread, mark_exited, tick,
}
use rix_os.Scheduler.Ready.{state_of, state_at, IsValid, slot, gap, slot-gap, NotReady, FirstReady}
use rix_os.Scheduler.Switch.{
  Switched, yielded, identity, SwitchEnds, prepare_switch_lem, slot-lt, slot-ne, Switched-IsValid,
}
use rix_os.Scheduler.Exit.{mark_exited-IsValid, exit_first-exited}
use rix_os.Scheduler.Nearer.{tick-eq, lt_of_state_at, gap_bounds}

-- A tick of a valid scheduler returns, with a valid scheduler that is the same or is switched.
abbrev TickEnds : Scheduler → Type 0
TickEnds s =
    (s' : Scheduler) × (tick s ≡ done s')
    × IsValid s'
    × ((s' ≡ s) ⊎ ((j : ℕ) × (state_at s j ≡ some ready) × (j ≢ s.current) × Switched s j s'))

pub tick_ends : (s : Scheduler) → IsValid s → TickEnds s
tick_ends s v = by_switch (prepare_switch_lem s v)
  where
    by_switch : SwitchEnds s → TickEnds s
    by_switch (inl (e, idle)) = (s, tick-eq s s none e, v, inl refl)
    by_switch (inr (i, s', e, f, w)) = (
      s',
      tick-eq s s' _ e,
      Switched-IsValid (slot s i) v (slot-lt s i v) w,
      inr (slot s i, f.found, slot-ne s i v f.from f.before_end, w),
    )

-- A tick changes no thread but for its state.
pub tick-identity :
    (s s' : Scheduler)
    → IsValid s
    → tick s ≡ done s'
    → (i : ℕ) → identity (get_elem? s'.threads i) ≡ identity (get_elem? s.threads i)
tick-identity s s' v e i =
    let (t, e', v', how) = tick_ends s v in
    subst (λ (u : Scheduler). identity (get_elem? u.threads i) ≡ identity (get_elem? s.threads i))
      (done_eq (sym e' ∙ e)) (by_switch t how)
  where
    by_switch :
        (t : Scheduler)
        → (t ≡ s) ⊎ ((j : ℕ) × (state_at s j ≡ some ready) × (j ≢ s.current) × Switched s j t)
        → identity (get_elem? t.threads i) ≡ identity (get_elem? s.threads i)
    by_switch t (inl eq) = ap (λ (u : Scheduler). identity (get_elem? u.threads i)) eq
    by_switch t (inr (j, r, ne, w)) = w.same_identity i

-- Added threads do not run yet.
pub add_thread_place :
    (s : Scheduler) (tcb : ThreadControlBlock) (k : ℕ)
    → (get_elem? (s.threads ++ tcb ∷ []) k ≡ get_elem? s.threads k)
      ⊎ ((k ≡ length s.threads) × (get_elem? (s.threads ++ tcb ∷ []) k ≡ some tcb))
add_thread_place s tcb k = at_place s.threads k
  where
    at_place :
        (ts : List ThreadControlBlock) (i : ℕ)
        → (get_elem? (ts ++ tcb ∷ []) i ≡ get_elem? ts i)
          ⊎ ((i ≡ length ts) × (get_elem? (ts ++ tcb ∷ []) i ≡ some tcb))
    at_place [] zero = inr (refl, refl)
    at_place [] (suc i) = inl refl
    at_place (t ∷ ts) zero = inl refl
    at_place (t ∷ ts) (suc i) = elim (at_place ts i) [
      | inl e ↦ inl e
      | inr (a, e) ↦ inr (omega arith, e)
    ]

pub add_thread-IsValid :
    (s : Scheduler) (tcb : ThreadControlBlock)
    → IsValid s
    → tcb.state ≢ running
    → length s.threads < 2 ^ 63
    → IsValid (add_thread tcb s)
unfolding add_thread
add_thread-IsValid s tcb v idle room = record {
  in_range = omega (arith, length-append s.threads (tcb ∷ []), v.in_range);
  small = omega (arith, length-append s.threads (tcb ∷ []));
  only_current = λ k r. elim (add_thread_place s tcb k) [
    | inl e ↦ v.only_current k (ap state_of (sym e) ∙ r)
    | inr (a, e) ↦ absurd (idle (ground (arith, ap state_of e)))
  ];
}

-- One operation of the kernel on its scheduler. A `Vec` of these has fewer than 2 ^ 63 places.
pub data Step (s : Scheduler) : Scheduler → Type 0 where
  add :
      (tcb : ThreadControlBlock)
      → tcb.state ≡ ready
      → length s.threads < 2 ^ 63
      → Step s (add_thread tcb s)
  timer : {s' : Scheduler} → tick s ≡ done s' → Step s s'
  exit : (tid : ℕ) → Step s (mark_exited tid s)

pub data Reach (s : Scheduler) : Scheduler → Type 0 where
  here : Reach s s
  next : {t u : Scheduler} → Reach s t → Step t u → Reach s u

tick-IsValid : (s s' : Scheduler) → IsValid s → tick s ≡ done s' → IsValid s'
tick-IsValid s s' v e =
    let (t, e', v', how) = tick_ends s v in subst IsValid (done_eq (sym e' ∙ e)) v'

Step-IsValid : {s s' : Scheduler} → Step s s' → IsValid s → IsValid s'
Step-IsValid {s} (add tcb st room) v = add_thread-IsValid s tcb v (ground arith) room
Step-IsValid {s} (timer {s' = s'} e) v = tick-IsValid s s' v e
Step-IsValid (exit tid) v = mark_exited-IsValid tid v

-- Whatever the kernel does with a valid scheduler, it stays valid and its next tick does not panic.
pub Reach-IsValid :
    {s s' : Scheduler}
    → IsValid s
    → Reach s s'
    → IsValid s' × ((t : Scheduler) × (tick s' ≡ done t))
Reach-IsValid {s} {s'} v r = let v' = valid r in (v', ends s' v')
  where
    ends : (u : Scheduler) → IsValid u → (t : Scheduler) × (tick u ≡ done t)
    ends u w = let (t, e, w', how) = tick_ends u w in (t, e)

    valid : {u : Scheduler} → Reach s u → IsValid u
    valid here = v
    valid (next r st) = Step-IsValid st (valid r)

-- A thread that has exited and is off the processor.
abbrev pub IsGone : Scheduler → ℕ → Type 0
IsGone s k = (state_at s k ≡ some exited) × (k ≢ s.current)

Switched-IsGone :
    (s s' : Scheduler) (j k : ℕ)
    → state_at s j ≡ some ready
    → Switched s j s'
    → state_at s k ≡ some exited
    → IsGone s' k
Switched-IsGone s s' j k r w e =
    let away : k ≢ j = λ eq. ground (arith, ap (state_at s) eq) in
    (
      elim (ℕ_discrete k s.current) [
        | yes eq ↦ ap (state_at s') eq ∙ w.old ∙ ap yielded (ap (state_at s) (sym eq) ∙ e)
        | no ne ↦ ap state_of (w.others k away ne) ∙ e
      ],
      λ eq. away (eq ∙ w.current),
    )

tick-IsGone : (s s' : Scheduler) (k : ℕ) → IsValid s → tick s ≡ done s' → IsGone s k → IsGone s' k
tick-IsGone s s' k v e g =
    let (t, e', v', how) = tick_ends s v in
    subst (λ u. IsGone u k) (done_eq (sym e' ∙ e)) (by_switch t how)
  where
    by_switch :
        (t : Scheduler)
        → (t ≡ s) ⊎ ((j : ℕ) × (state_at s j ≡ some ready) × (j ≢ s.current) × Switched s j t)
        → IsGone t k
    by_switch t (inl eq) = subst (λ u. IsGone u k) (sym eq) g
    by_switch t (inr (j, r, ne, w)) = Switched-IsGone s t j k r w g.0

Step-IsGone : {s s' : Scheduler} (k : ℕ) → IsValid s → Step s s' → IsGone s k → IsGone s' k
Step-IsGone {s} k v (add tcb st room) g =
    unfold add_thread in
    (ap state_of (get_elem?-append_left s.threads (tcb ∷ []) k (lt_of_state_at s k g.0)) ∙ g.0, g.1)
Step-IsGone {s} k v (timer {s' = s'} e) g = tick-IsGone s s' k v e g
Step-IsGone {s} k v (exit tid) g =
    unfold mark_exited in (exit_first-exited tid s.threads k g.0, g.1)

-- A thread that has exited and is not the current one stays so: no later history of a valid
-- scheduler makes it current or changes its state.
pub Reach-IsGone : {s s' : Scheduler} (k : ℕ) → IsValid s → IsGone s k → Reach s s' → IsGone s' k
Reach-IsGone k v g here = g
Reach-IsGone k v g (next r st) = Step-IsGone k (Reach-IsValid v r).0 st (Reach-IsGone k v g r)

-- How a tick ends for a current thread that has exited: the first Ready thread going round is switched
-- to, or none is Ready.
abbrev pub ExitEnds : Scheduler → Type 0
ExitEnds s =
    (s' : Scheduler) × (tick s ≡ done s')
    × (((i : ℕ) × FirstReady s 1 i × Switched s (slot s i) s' × IsGone s' s.current)
        ⊎ ((s' ≡ s) × ((j : ℕ) → j < length s.threads → state_at s j ≢ some ready)))

-- A current thread that has exited loses the processor at the next tick exactly if some thread is
-- Ready: the tick then switches to the first Ready one going round, and the exited thread is gone;
-- with no Ready thread the tick changes nothing and the exited thread runs on.
pub tick_after_exit : (s : Scheduler) → IsValid s → state_at s s.current ≡ some exited → ExitEnds s
tick_after_exit s v e = by_switch (prepare_switch_lem s v)
  where
    none_ready :
        ((i : ℕ) → 1 ≤ i → i < length s.threads → NotReady s i)
        → (j : ℕ) → j < length s.threads
        → state_at s j ≢ some ready
    none_ready idle j l r = elim (ℕ_discrete j s.current) [
      | yes eq ↦ ground (arith, ap (state_at s) eq)
      | no ne ↦
          let (lo, hi) = gap_bounds (length s.threads) s.current j v.in_range l ne in
          idle (gap (length s.threads) s.current j) lo hi (rw (slot-gap s j v l) r)
    ]

    by_switch : SwitchEnds s → ExitEnds s
    by_switch (inl (e', idle)) = (s, tick-eq s s none e', inr (refl, none_ready idle))
    by_switch (inr (i, s', e', f, w)) = (
      s',
      tick-eq s s' _ e',
      inl (i, f, w, Switched-IsGone s s' (slot s i) s.current f.found w e),
    )
