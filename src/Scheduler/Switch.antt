-- ===== src/Scheduler/Switch.antt =====
-- `prepare_switch`: what a switch does to every thread, and the invariant.
use native.Mathlib.Decide.{ℕ_discrete}
use native.Mathlib.Nat.{mod-lt}
use rix_os.Base.{
  ℕ, ◌≤◌, ◌<◌, ◌≡◌, refl, ap, sym, ◌∙◌, ◌≢◌, ◌⊎◌, inl, inr, Option, none, some, List, arith,
  if◌then◌else◌, length, get_elem?, set, length-set, get_elem?-set_self, get_elem?-set_ne,
  get_elem?_of_lt, lt-of_get_elem?, done,
}
use rix_os.Scheduler.{
  ThreadState, ready, running, blocked, exited, ThreadControlBlock, Scheduler, is_running,
  next_ready_thread, switch_to, prepare_switch,
}
use rix_os.Scheduler.Ready.{
  state_of, state_at, IsValid, slot, NotReady, FirstReady, next_ready_thread_lem, mod_wrap,
  ScanEnds,
}

-- The state of the old thread after the switch: a Running one becomes Ready again.
abbrev pub yielded : Option ThreadState → Option ThreadState
yielded none = none
yielded (some running) = some ready
yielded (some st) = some st

-- A thread but for its state.
abbrev pub identity : Option ThreadControlBlock → Option ThreadControlBlock
identity none = none
identity (some t) = some (record t { state = ready })

-- `s'` is `s` after the switch to place `j`.
pub record Switched (s : Scheduler) (j : ℕ) (s' : Scheduler) : Type 0 where
  pub current : s'.current ≡ j
  pub next : state_at s' j ≡ some running
  pub old : state_at s' s.current ≡ yielded (state_at s s.current)
  pub others : (k : ℕ) → k ≢ j → k ≢ s.current → get_elem? s'.threads k ≡ get_elem? s.threads k
  pub same_identity : (k : ℕ) → identity (get_elem? s'.threads k) ≡ identity (get_elem? s.threads k)
  pub same_length : length s'.threads ≡ length s.threads

-- The threads after the current one has yielded.
abbrev after_yield : Scheduler → ThreadControlBlock → List ThreadControlBlock
after_yield s t =
    if is_running t.state then set s.threads s.current (record t { state = ready }) else s.threads

module _ (s : Scheduler) (j : ℕ) (t u : ThreadControlBlock) (ne : j ≢ s.current)
    (at : get_elem? s.threads s.current ≡ some t) (at_next : get_elem? s.threads j ≡ some u) where
  yield_self : state_of (get_elem? (after_yield s t) s.current) ≡ yielded (some t.state)
  yield_self = ground (
    arith,
    get_elem?-set_self s.threads s.current (record t { state = ready }),
    lt-of_get_elem? s.threads s.current at,
  )

  yield_ne : (k : ℕ) → k ≢ s.current → get_elem? (after_yield s t) k ≡ get_elem? s.threads k
  yield_ne k h = ground (arith, get_elem?-set_ne s.threads s.current k (record t { state = ready }))

  yield-length : length (after_yield s t) ≡ length s.threads
  yield-length = ground (arith, length-set s.threads s.current (record t { state = ready }))

  yield_identity :
      (k : ℕ) → identity (get_elem? (after_yield s t) k) ≡ identity (get_elem? s.threads k)
  yield_identity k = elim (ℕ_discrete k s.current) [
    | yes e ↦ ground (
      arith,
      get_elem?-set_self s.threads s.current (record t { state = ready }),
      lt-of_get_elem? s.threads s.current at,
    )
    | no h ↦ ap identity (yield_ne k h)
  ]

  -- The threads after the switch.
  abbrev after_switch : List ThreadControlBlock
  after_switch = set (after_yield s t) j (record u { state = running })

  switch_to-eq :
      switch_to s j ≡ done (record { threads = after_switch; current = j }, some (s.current, j))
  unfolding switch_to
  switch_to-eq = ground (arith, yield_ne j ne)

  after_switch_self : get_elem? after_switch j ≡ some (record u { state = running })
  after_switch_self =
      get_elem?-set_self (after_yield s t) j (record u { state = running })
        (omega (arith, yield-length, lt-of_get_elem? s.threads j at_next))

  after_switch_ne : (k : ℕ) → k ≢ j → get_elem? after_switch k ≡ get_elem? (after_yield s t) k
  after_switch_ne k h =
      get_elem?-set_ne (after_yield s t) j k (record u { state = running }) (λ e. h (sym e))

  after_switch-Switched : Switched s j (record { threads = after_switch; current = j })
  after_switch-Switched = record {
    current = refl;
    next = ap state_of after_switch_self;
    old =
        ap state_of (after_switch_ne s.current (λ e. ne (sym e)))
        ∙ yield_self
        ∙ ap yielded (ap state_of (sym at));
    others = λ k h l. after_switch_ne k h ∙ yield_ne k l;
    same_identity = λ k. elim (ℕ_discrete k j) [
      | yes e ↦ rw (e, after_switch_self, at_next)
      | no h ↦ ap identity (after_switch_ne k h) ∙ yield_identity k
    ];
    same_length = length-set (after_yield s t) j (record u { state = running }) ∙ yield-length;
  }

pub switch_to_lem :
    (s : Scheduler) (j : ℕ)
    → s.current < length s.threads
    → j < length s.threads
    → j ≢ s.current
    → (s' : Scheduler) × (switch_to s j ≡ done (s', some (s.current, j))) × Switched s j s'
switch_to_lem s j hc hj ne =
    let (t, at) = get_elem?_of_lt s.threads s.current hc in
    let (u, at_next) = get_elem?_of_lt s.threads j hj in
    (
      record { threads = after_switch s j t u ne at at_next; current = j },
      switch_to-eq s j t u ne at at_next,
      after_switch-Switched s j t u ne at at_next,
    )

-- A slot from 1 to n - 1 is not the current place.
pub slot-ne :
    (s : Scheduler) (i : ℕ) → IsValid s → 1 ≤ i → i < length s.threads → slot s i ≢ s.current
slot-ne s i v h l = ground (arith, v.in_range, mod_wrap (length s.threads) s.current i v.in_range)

pub slot-lt : (s : Scheduler) (i : ℕ) → IsValid s → slot s i < length s.threads
slot-lt s i v = mod-lt _ (omega (arith, v.in_range))

-- In a valid scheduler `prepare_switch` does not panic. Either no other thread is Ready and it
-- changes nothing, or it switches to the first Ready one, going round, and returns the two places.
abbrev pub SwitchEnds : Scheduler → Type 0
SwitchEnds s =
    ((prepare_switch s ≡ done (s, none)) × ((k : ℕ) → 1 ≤ k → k < length s.threads → NotReady s k))
    ⊎ ((i : ℕ) × (s' : Scheduler) × (prepare_switch s ≡ done (s', some (s.current, slot s i)))
        × FirstReady s 1 i
        × Switched s (slot s i) s')

prepare_switch-none :
    (s : Scheduler) → next_ready_thread s ≡ done none → prepare_switch s ≡ done (s, none)
unfolding prepare_switch
prepare_switch-none s e = rw e

prepare_switch-some :
    (s : Scheduler) (j : ℕ) → next_ready_thread s ≡ done (some j) → prepare_switch s ≡ switch_to s j
unfolding prepare_switch
prepare_switch-some s j e = rw e

-- In a valid scheduler `prepare_switch` does not panic: either no thread but the current one is
-- Ready and nothing changes, or the current place moves to the first Ready thread going round, which
-- becomes Running, a Running old thread becomes Ready, and no other thread changes.
pub prepare_switch_lem : (s : Scheduler) → IsValid s → SwitchEnds s
prepare_switch_lem s v = from_scan (next_ready_thread_lem s v)
  where
    from_scan : ScanEnds s 1 (next_ready_thread s) → SwitchEnds s
    from_scan (inl (e, idle)) = inl (prepare_switch-none s e, idle)
    from_scan (inr (i, e, f)) =
        let (s', e', w) =
          switch_to_lem s (slot s i) v.in_range (slot-lt s i v)
            (slot-ne s i v f.from f.before_end) in
        inr (i, s', prepare_switch-some s (slot s i) e ∙ e', f, w)

yielded-ne-running : (o : Option ThreadState) → yielded o ≢ some running
yielded-ne-running none = cc
yielded-ne-running (some ready) = ground arith
yielded-ne-running (some running) = ground arith
yielded-ne-running (some blocked) = ground arith
yielded-ne-running (some exited) = ground arith

-- A switch to another place of a valid scheduler leaves it valid.
pub Switched-IsValid :
    {s s' : Scheduler} (j : ℕ) → IsValid s → j < length s.threads → Switched s j s' → IsValid s'
Switched-IsValid {s} {s'} j v h w = record {
  in_range = omega (arith, w.current, w.same_length);
  small = omega (arith, v.small, w.same_length);
  only_current = λ k r. elim (ℕ_discrete k j) [
    | yes e ↦ e ∙ sym w.current
    | no ne ↦ elim (ℕ_discrete k s.current) [
      | yes e ↦ absurd (yielded-ne-running _ (sym w.old ∙ ap (state_at s') (sym e) ∙ r))
      | no nc ↦ absurd (nc (v.only_current k (ap state_of (sym (w.others k ne nc)) ∙ r)))
    ]
  ];
}
