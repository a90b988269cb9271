-- ===== src/Scheduler/Nearer.antt =====
-- How near the next ticks of kernel/src/scheduler.rs are to a Ready thread.
use native.Mathlib.Decide.{ℕ_discrete, dec_lt}
use rix_os.Base.{
  ℕ, ◌+◌, ◌%◌, ◌≤◌, ◌<◌, ◌≡◌, ap, sym, subst, ◌∙◌, ◌≢◌, ◌⊎◌, inl, inr, Option, some, arith,
  Option-cases, length, get_elem?, lt-of_get_elem?, done, done_eq,
}
use rix_os.Scheduler.{ThreadState, ready, running, Scheduler, prepare_switch, tick}
use rix_os.Scheduler.Ready.{
  state_of, state_at, IsValid, slot, gap, mod_wrap, slot-gap, NotReady, FirstReady,
}
use rix_os.Scheduler.Switch.{Switched, prepare_switch_lem, SwitchEnds}

pub tick-eq :
    (s s' : Scheduler) (r : Option (ℕ × ℕ)) → prepare_switch s ≡ done (s', r) → tick s ≡ done s'
unfolding tick
tick-eq s s' r e = rw e

pub lt_of_state_at :
    (s : Scheduler) (j : ℕ) {st : ThreadState} → state_at s j ≡ some st → j < length s.threads
lt_of_state_at s j {st} h = elim (Option-cases (get_elem? s.threads j)) [
  | inl e ↦ ground arith
  | inr (t, e) ↦ lt-of_get_elem? s.threads j e
]

-- Going `i` steps round brings a place beyond by `i` steps nearer.
gap-slot :
    (n c j i : ℕ) → c < n → j < n → j ≢ c → i < gap n c j → gap n ((c + i) % n) j + i ≡ gap n c j
gap-slot n c j i hc hj ne h = ground (arith, mod_wrap n c i hc)

pub gap_bounds : (n c j : ℕ) → c < n → j < n → j ≢ c → (1 ≤ gap n c j) × (gap n c j < n)
gap_bounds n c j hc hj ne = ground arith

-- The first Ready thread is no farther round than the Ready thread at `j`.
FirstReady-le-gap :
    (s : Scheduler) (i j : ℕ)
    → IsValid s
    → FirstReady s 1 i
    → state_at s j ≡ some ready
    → j ≢ s.current
    → i ≤ gap (length s.threads) s.current j
FirstReady-le-gap s i j v f r ne = elim (dec_lt (gap (length s.threads) s.current j) i) [
  | yes l ↦
      let hj = lt_of_state_at s j r in
      absurd (
        f.earlier (gap (length s.threads) s.current j)
          (gap_bounds (length s.threads) s.current j v.in_range hj ne).0 l
          (rw (slot-gap s j v hj) r))
  | no l ↦ omega arith
]

-- A scan that finds no Ready thread passes no Ready one.
pub not_idle :
    (s : Scheduler) (j : ℕ)
    → IsValid s
    → state_at s j ≡ some ready
    → j ≢ s.current
    → ¬ ((k : ℕ) → 1 ≤ k → k < length s.threads → NotReady s k)
not_idle s j v r ne idle =
    let hj = lt_of_state_at s j r in
    let (lo, hi) = gap_bounds (length s.threads) s.current j v.in_range hj ne in
    idle (gap (length s.threads) s.current j) lo hi (rw (slot-gap s j v hj) r)

-- One tick brings a Ready thread to the front or nearer by at least one step.
pub record Nearer (s : Scheduler) (j : ℕ) (s' : Scheduler) : Type 0 where
  pub still_ready : state_at s' j ≡ some ready
  pub not_current : j ≢ s'.current
  pub nearer : gap (length s'.threads) s'.current j < gap (length s.threads) s.current j

tick-Nearer :
    (s s' : Scheduler) (i j : ℕ)
    → IsValid s
    → FirstReady s 1 i
    → Switched s (slot s i) s'
    → state_at s j ≡ some ready
    → j ≢ s.current
    → i < gap (length s.threads) s.current j
    → Nearer s j s'
tick-Nearer s s' i j v f w r ne l =
    let hj = lt_of_state_at s j r in
    let closer = gap-slot (length s.threads) s.current j i v.in_range hj ne l in
    let away : j ≢ slot s i = λ e. ground (
      arith,
      closer,
      f.from,
      f.before_end,
      mod_wrap (length s.threads) s.current i v.in_range,
      v.in_range,
    ) in
    record {
      still_ready = ap state_of (w.others j away ne) ∙ r;
      not_current = λ e. away (e ∙ w.current);
      nearer = rw (w.same_length, w.current) (omega (arith, closer, f.from));
    }

-- What one tick does for the thread at `j`.
abbrev pub Approaches : Scheduler → (j : ℕ) → Scheduler → Type 0
Approaches s j s' = ((s'.current ≡ j) × (state_at s' j ≡ some running)) ⊎ Nearer s j s'

pub switch-Approaches :
    (s s' : Scheduler) (i j : ℕ)
    → IsValid s
    → FirstReady s 1 i
    → Switched s (slot s i) s'
    → state_at s j ≡ some ready
    → j ≢ s.current
    → Approaches s j s'
switch-Approaches s s' i j v f w r ne = elim (ℕ_discrete i (gap (length s.threads) s.current j)) [
  | yes eq ↦
      let here : slot s i ≡ j = rw eq (slot-gap s j v (lt_of_state_at s j r)) in
      inl (w.current ∙ here, subst (λ k. state_at s' k ≡ some running) here w.next)
  | no off ↦
      let le = FirstReady-le-gap s i j v f r ne in
      inr (tick-Nearer s s' i j v f w r ne (omega arith))
]

pub tick-Approaches :
    (s s' : Scheduler) (j : ℕ)
    → IsValid s
    → state_at s j ≡ some ready
    → j ≢ s.current
    → tick s ≡ done s'
    → Approaches s j s'
tick-Approaches s s' j v r ne e = by_switch (prepare_switch_lem s v)
  where
    by_switch : SwitchEnds s → Approaches s j s'
    by_switch (inl (e', idle)) = absurd (not_idle s j v r ne idle)
    by_switch (inr (i, t, e', f, w)) =
        subst (Approaches s j) (done_eq (sym (tick-eq s t _ e') ∙ e))
          (switch-Approaches s t i j v f w r ne)
