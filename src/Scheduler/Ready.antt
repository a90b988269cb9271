-- ===== src/Scheduler/Ready.antt =====
-- `next_ready_thread`: which thread the scan finds.
use native.Mathlib.Nat.{mod-lt, mod-eq_of_lt, mod-eq-sub-mod}
use native.Mathlib.Decide.{dec_lt}
use rix_os.Base.{
  ℕ, zero, suc, ◌+◌, ◌-◌, ◌%◌, ◌^◌, ◌≤◌, ◌<◌, ◌≡◌, refl, ap, ◌≢◌, ◌⊎◌, inl, inr, true, false,
  Option, none, some, arith, ltb, leb, if◌then◌else◌, Bool-cases, length, get_elem?,
  get_elem?_of_lt, Exec, done, u64,
}
use rix_os.Scheduler.{
  ThreadState, ready, running, blocked, exited, ThreadControlBlock, Scheduler, is_ready, scan,
  next_ready_thread,
}

abbrev pub state_of : Option ThreadControlBlock → Option ThreadState
state_of none = none
state_of (some t) = some t.state

-- The state of the thread at a place of the list.
abbrev pub state_at : Scheduler → ℕ → Option ThreadState
state_at s i = state_of (get_elem? s.threads i)

-- The current thread is in the list, the list is no longer than a `Vec` can be, and no thread but
-- the current one is Running.
pub record IsValid (s : Scheduler) : Type 0 where
  pub in_range : s.current < length s.threads
  pub small : length s.threads ≤ 2 ^ 63
  pub only_current : (k : ℕ) → state_at s k ≡ some running → k ≡ s.current

-- The place `i` steps after the current one, going round.
abbrev pub slot : Scheduler → ℕ → ℕ
slot s i = (s.current + i) % length s.threads

-- The steps from place `c` to place `j`, going round `n` places; `n` for `c` itself.
abbrev pub gap : ℕ → ℕ → ℕ → ℕ
gap n c j = if ltb c j then j - c else j + n - c

pub mod_wrap :
    (n c i : ℕ) → c < n → i ≤ n → (c + i) % n ≡ (if ltb (c + i) n then c + i else c + i - n)
mod_wrap n c i hc hi = elim (Bool-cases (ltb (c + i) n)) [
  | inl h ↦ rw h (mod-eq_of_lt (ground arith))
  | inr h ↦ rw h (
      omega (
        arith,
        mod-eq-sub-mod {n = c + i} {m = n} (ground arith),
        mod-eq_of_lt {n = c + i - n} {m = n} (omega arith),
      ))
]

pub mod-gap : (n c j : ℕ) → c < n → j < n → (c + gap n c j) % n ≡ j
mod-gap n c j hc hj = ground (arith, mod_wrap n c (gap n c j))

-- What stands at a slot is ready or is not.
abbrev pub NotReady : Scheduler → ℕ → Type 0
NotReady s i = state_at s (slot s i) ≢ some ready

-- `i` is the first step, from `lo` on and before `n`, at which a Ready thread stands.
pub record FirstReady (s : Scheduler) (lo i : ℕ) : Type 0 where
  pub from : lo ≤ i
  pub before_end : i < length s.threads
  pub found : state_at s (slot s i) ≡ some ready
  pub earlier : (k : ℕ) → lo ≤ k → k < i → NotReady s k

is_ready_iff : (st : ThreadState) → is_ready st ≡ true → st ≡ ready
is_ready_iff ready h = refl
is_ready_iff running h = cc
is_ready_iff blocked h = cc
is_ready_iff exited h = cc

-- How the scan from step `i` ends.
abbrev pub ScanEnds : Scheduler → ℕ → Exec (Option ℕ) → Type 0
ScanEnds s lo r =
    ((r ≡ done none) × ((k : ℕ) → lo ≤ k → k < length s.threads → NotReady s k))
    ⊎ ((i : ℕ) × (r ≡ done (some (slot s i))) × FirstReady s lo i)

scan_found :
    (s : Scheduler) (left i : ℕ) (t : ThreadControlBlock)
    → u64 (s.current + i) ≡ s.current + i
    → get_elem? s.threads (slot s i) ≡ some t
    → t.state ≡ ready
    → scan s.threads s.current (length s.threads) (suc left) i ≡ done (some (slot s i))
unfolding scan
scan_found s left i t small e r = rw (small, e, r)

scan_skip :
    (s : Scheduler) (left i : ℕ) (t : ThreadControlBlock)
    → u64 (s.current + i) ≡ s.current + i
    → get_elem? s.threads (slot s i) ≡ some t
    → is_ready t.state ≡ false
    → scan s.threads s.current (length s.threads) (suc left) i
      ≡ scan s.threads s.current (length s.threads) left (i + 1)
unfolding scan
scan_skip s left i t small e r = rw (small, e, r)

NotReady-of_test :
    (s : Scheduler) (k : ℕ) (t : ThreadControlBlock)
    → get_elem? s.threads (slot s k) ≡ some t
    → is_ready t.state ≡ false
    → NotReady s k
NotReady-of_test s k t e r = ground arith

-- One more step that was not ready, put in front of how the rest ends.
ScanEnds-skip :
    (s : Scheduler) (lo : ℕ) {r : Exec (Option ℕ)}
    → NotReady s lo
    → ScanEnds s (lo + 1) r
    → ScanEnds s lo r
ScanEnds-skip s lo here (inl (e, none_left)) = inl (
  e,
  λ k p q. elim (dec_lt lo k) [
    | yes l ↦ none_left k (omega arith) q
    | no l ↦ let eq : lo ≡ k = omega arith in rw (← eq) here
  ],
)
ScanEnds-skip s lo here (inr (i, e, f)) = inr (
  i,
  e,
  record {
    from = omega arith;
    before_end = f.before_end;
    found = f.found;
    earlier = λ k p q. elim (dec_lt lo k) [
      | yes l ↦ f.earlier k (omega arith) q
      | no l ↦ let eq : lo ≡ k = omega arith in rw (← eq) here
    ];
  },
)

scan_ends :
    (s : Scheduler) (left i : ℕ)
    → IsValid s
    → i + left ≡ length s.threads
    → ScanEnds s i (scan s.threads s.current (length s.threads) left i)
scan_ends s zero i v e = inl (unfold scan in refl, λ k p q. absurd (omega arith))
scan_ends s (suc left) i v e =
    let (t, at) = get_elem?_of_lt s.threads (slot s i) (mod-lt _ (omega (arith, v.in_range))) in
    let small : u64 (s.current + i) ≡ s.current + i = omega (arith, v.in_range, v.small) in
    elim (Bool-cases (is_ready t.state)) [
      | inl r ↦ inr (
        i,
        scan_found s left i t small at (is_ready_iff t.state r),
        record {
          from = omega arith;
          before_end = omega arith;
          found = rw at (ap some (is_ready_iff t.state r));
          earlier = λ k p q. absurd (omega arith);
        },
      )
      | inr r ↦ rw (scan_skip s left i t small at r) (
          ScanEnds-skip s i (NotReady-of_test s i t at r)
            (scan_ends s left (i + 1) v (omega arith)))
    ]

-- In a valid scheduler `next_ready_thread` does not panic. It returns `None` exactly when no slot
-- from 1 to n - 1 holds a Ready thread, and else the first such slot.
pub next_ready_thread_lem : (s : Scheduler) → IsValid s → ScanEnds s 1 (next_ready_thread s)
unfolding next_ready_thread
next_ready_thread_lem s v = elim (Bool-cases (leb (length s.threads) 1)) [
  | inl h ↦ rw h (inl (refl, λ k p q. absurd (ground arith)))
  | inr h ↦ rw h (scan_ends s (length s.threads - 1) 1 v (omega (arith, v.in_range)))
]

-- A place other than the current one is a slot from 1 to n - 1.
pub slot-gap :
    (s : Scheduler) (j : ℕ)
    → IsValid s
    → j < length s.threads
    → slot s (gap (length s.threads) s.current j) ≡ j
slot-gap s j v h = mod-gap (length s.threads) s.current j v.in_range h
