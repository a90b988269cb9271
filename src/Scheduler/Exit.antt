-- ===== src/Scheduler/Exit.antt =====
-- `mark_exited` of kernel/src/scheduler.rs on the thread list.
use rix_os.Base.{
  ℕ, zero, suc, ◌<◌, ◌≡◌, refl, ap, sym, ◌∙◌, ◌≢◌, ◌⊎◌, inl, inr, true, false, some, List, [], ◌∷◌,
  arith, ◌==◌, Bool-cases, length, get_elem?,
}
use rix_os.Scheduler.{running, exited, ThreadControlBlock, Scheduler, exit_first, mark_exited}
use rix_os.Scheduler.Ready.{state_of, IsValid}

-- Thread ids are not shared between places of the list.
abbrev pub UniqueTids : List ThreadControlBlock → Type 0
UniqueTids ts =
    (i j : ℕ) (t u : ThreadControlBlock)
    → get_elem? ts i ≡ some t
    → get_elem? ts j ≡ some u
    → t.tid ≡ u.tid
    → i ≡ j

abbrev pub exit : ThreadControlBlock → ThreadControlBlock
exit t = record t { state = exited }

pub length-exit_first :
    (tid : ℕ) (ts : List ThreadControlBlock) → length (exit_first tid ts) ≡ length ts
unfolding exit_first
length-exit_first tid [] = refl
length-exit_first tid (t ∷ ts) = ground (arith, length-exit_first tid ts)

-- What `exit_first` leaves at a place: the thread, or the thread exited if it has the id.
abbrev pub ExitCases : ℕ → List ThreadControlBlock → ℕ → Type 0
ExitCases tid ts k =
    (get_elem? (exit_first tid ts) k ≡ get_elem? ts k)
    ⊎ ((t : ThreadControlBlock) × (get_elem? ts k ≡ some t)
        × (t.tid ≡ tid)
        × (get_elem? (exit_first tid ts) k ≡ some (exit t)))

pub exit_first_cases : (tid : ℕ) (ts : List ThreadControlBlock) (k : ℕ) → ExitCases tid ts k
unfolding exit_first
exit_first_cases tid [] k = inl refl
exit_first_cases tid (t ∷ ts) k = by_test (Bool-cases (t.tid == tid)) k (exit_first_cases tid ts)
  where
    by_test :
        ((t.tid == tid) ≡ true) ⊎ ((t.tid == tid) ≡ false)
        → (i : ℕ) → ((i : ℕ) → ExitCases tid ts i)
        → ExitCases tid (t ∷ ts) i
    by_test (inl e) zero rest = inr (t, refl, ground arith, rw e)
    by_test (inl e) (suc i) rest = inl (rw e)
    by_test (inr e) zero rest = inl (rw e)
    by_test (inr e) (suc i) rest = rw e (rest i)

-- A thread with another id stays as it is.
pub exit_first-ne :
    (tid : ℕ) (ts : List ThreadControlBlock) (k : ℕ) (t : ThreadControlBlock)
    → get_elem? ts k ≡ some t
    → t.tid ≢ tid
    → get_elem? (exit_first tid ts) k ≡ some t
exit_first-ne tid ts k t at ne = by_cases (exit_first_cases tid ts k)
  where
    by_cases : ExitCases tid ts k → get_elem? (exit_first tid ts) k ≡ some t
    by_cases (inl e) = e ∙ at
    by_cases (inr (u, at', same, e)) = absurd (ground arith)

-- A thread with the id, and no thread with it before, is exited.
pub exit_first_self :
    (tid : ℕ) (ts : List ThreadControlBlock) (k : ℕ) (t : ThreadControlBlock)
    → get_elem? ts k ≡ some t
    → t.tid ≡ tid
    → ((i : ℕ) (u : ThreadControlBlock) → i < k → get_elem? ts i ≡ some u → u.tid ≢ tid)
    → get_elem? (exit_first tid ts) k ≡ some (exit t)
unfolding exit_first
exit_first_self tid [] k t at same earlier = cc
exit_first_self tid (x ∷ ts) zero t at same earlier = ground arith
exit_first_self tid (x ∷ ts) (suc k) t at same earlier = elim (Bool-cases (x.tid == tid)) [
  | inl e ↦ absurd (earlier 0 x (omega arith) refl (ground arith))
  | inr e ↦ rw e (exit_first_self tid ts k t at same (λ i u l a. earlier (suc i) u (omega arith) a))
]

-- What `mark_exited` of the thread `t` at place `k` leads to.
pub record MarksExited (s : Scheduler) (k : ℕ) (t : ThreadControlBlock) (s' : Scheduler)
    : Type 0 where
  pub exited_at : get_elem? s'.threads k ≡ some (exit t)
  pub others : (i : ℕ) → i ≢ k → get_elem? s'.threads i ≡ get_elem? s.threads i
  pub same_current : s'.current ≡ s.current
  pub same_length : length s'.threads ≡ length s.threads

-- `mark_exited` of a thread of a list whose ids are unique makes exactly that thread Exited: it keeps
-- its other fields, and every other place and the current place are as before.
pub mark_exited_lem :
    (s : Scheduler) (k : ℕ) (t : ThreadControlBlock)
    → UniqueTids s.threads
    → get_elem? s.threads k ≡ some t
    → MarksExited s k t (mark_exited t.tid s)
unfolding mark_exited
mark_exited_lem s k t unique at = record {
  exited_at =
      exit_first_self t.tid s.threads k t at refl
        (λ i u l a same. lt_irrefl (unique i k u t a at same) l);
  others = others;
  same_current = refl;
  same_length = length-exit_first t.tid s.threads;
}
  where
    lt_irrefl : {i : ℕ} → i ≡ k → i < k → ⊥
    lt_irrefl e l = omega arith

    others : (i : ℕ) → i ≢ k → get_elem? (exit_first t.tid s.threads) i ≡ get_elem? s.threads i
    others i ne = by_cases (exit_first_cases t.tid s.threads i)
      where
        by_cases :
            ExitCases t.tid s.threads i
            → get_elem? (exit_first t.tid s.threads) i ≡ get_elem? s.threads i
        by_cases (inl e) = e
        by_cases (inr (u, a, same, e)) = absurd (ne (unique i k u t a at same))

-- `mark_exited` makes no thread Running.
pub exit_first-running :
    (tid : ℕ) (ts : List ThreadControlBlock) (k : ℕ)
    → state_of (get_elem? (exit_first tid ts) k) ≡ some running
    → state_of (get_elem? ts k) ≡ some running
exit_first-running tid ts k r = by_cases (exit_first_cases tid ts k)
  where
    by_cases : ExitCases tid ts k → state_of (get_elem? ts k) ≡ some running
    by_cases (inl e) = ap state_of (sym e) ∙ r
    by_cases (inr (u, a, same, e)) = absurd (ground arith)

pub mark_exited-IsValid : {s : Scheduler} (tid : ℕ) → IsValid s → IsValid (mark_exited tid s)
unfolding mark_exited
mark_exited-IsValid {s} tid v = record {
  in_range = rw (length-exit_first tid s.threads) v.in_range;
  small = rw (length-exit_first tid s.threads) v.small;
  only_current = λ k r. v.only_current k (exit_first-running tid s.threads k r);
}

-- `mark_exited` leaves an Exited thread Exited.
pub exit_first-exited :
    (tid : ℕ) (ts : List ThreadControlBlock) (k : ℕ)
    → state_of (get_elem? ts k) ≡ some exited
    → state_of (get_elem? (exit_first tid ts) k) ≡ some exited
exit_first-exited tid ts k r = by_cases (exit_first_cases tid ts k)
  where
    by_cases : ExitCases tid ts k → state_of (get_elem? (exit_first tid ts) k) ≡ some exited
    by_cases (inl e) = ap state_of e ∙ r
    by_cases (inr (u, a, same, e)) = ap state_of e
