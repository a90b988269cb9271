-- ===== src/Kernel/ExitAll.antt =====
-- The loop of `exit_process` over the thread ids.
use rix_os.Base.{
  ℕ, ◌<◌, ◌≡◌, refl, sym, ◌∙◌, inl, inr, some, List, [], ◌∷◌, ◌==◌, if◌then◌else◌, arith, get_elem?,
  Bool-cases,
}
use rix_os.Scheduler.{Scheduler, ThreadControlBlock, mark_exited, exit_first}
use rix_os.Scheduler.Ready.{IsValid}
use rix_os.Scheduler.Exit.{
  UniqueTids, exit, ExitCases, exit_first_cases, exit_first-ne, exit_first_self,
  mark_exited-IsValid,
}
use rix_os.Kernel.{exit_all}
use rix_os.Kernel.Consistent.{has}

-- What `mark_exited` leaves at a place, under unique ids.
pub exit_first-at :
    (tid : ℕ) (ts : List ThreadControlBlock) (i : ℕ) (t : ThreadControlBlock)
    → UniqueTids ts
    → get_elem? ts i ≡ some t
    → get_elem? (exit_first tid ts) i ≡ some (if t.tid == tid then exit t else t)
exit_first-at tid ts i t unique at = elim (Bool-cases (t.tid == tid)) [
  | inl e ↦ rw e (
      exit_first_self tid ts i t at (ground arith)
        (λ j u l a same. before l (unique j i u t a at (ground arith))))
  | inr e ↦ rw e (exit_first-ne tid ts i t at (ground arith))
]
  where
    before : {j : ℕ} → j < i → j ≡ i → ⊥
    before l e = omega arith

-- The place of a thread after `mark_exited` held a thread with the same ids before.
pub exit_first-from :
    (tid : ℕ) (ts : List ThreadControlBlock) (i : ℕ) (u : ThreadControlBlock)
    → get_elem? (exit_first tid ts) i ≡ some u
    → (t : ThreadControlBlock) × (get_elem? ts i ≡ some t) × (u.tid ≡ t.tid) × (u.pid ≡ t.pid)
exit_first-from tid ts i u at = by_cases (exit_first_cases tid ts i)
  where
    by_cases :
        ExitCases tid ts i
        → (t : ThreadControlBlock) × (get_elem? ts i ≡ some t) × (u.tid ≡ t.tid) × (u.pid ≡ t.pid)
    by_cases (inl e) = (u, sym e ∙ at, refl, refl)
    by_cases (inr (t, a, same, e)) = (t, a, ground arith, ground arith)

pub exit_first-UniqueTids :
    (tid : ℕ) (ts : List ThreadControlBlock) → UniqueTids ts → UniqueTids (exit_first tid ts)
exit_first-UniqueTids tid ts unique i j t u at au same =
    let (t', at', e, _) = exit_first-from tid ts i t at in
    let (u', au', e', _) = exit_first-from tid ts j u au in
    unique i j t' u' at' au' (sym e ∙ same ∙ e')

pub exit_all-UniqueTids :
    (tids : List ℕ) (s : Scheduler) → UniqueTids s.threads → UniqueTids (exit_all tids s).threads
unfolding exit_all mark_exited
exit_all-UniqueTids [] s unique = unique
exit_all-UniqueTids (tid ∷ tids) s unique =
    exit_all-UniqueTids tids _ (exit_first-UniqueTids tid s.threads unique)

pub exit_all-IsValid : (tids : List ℕ) (s : Scheduler) → IsValid s → IsValid (exit_all tids s)
unfolding exit_all
exit_all-IsValid [] s v = v
exit_all-IsValid (tid ∷ tids) s v = exit_all-IsValid tids _ (mark_exited-IsValid tid v)

-- The loop over the ids makes a thread Exited if its id is among them, and leaves it alone if not.
pub exit_all-at :
    (tids : List ℕ) (s : Scheduler) (i : ℕ) (t : ThreadControlBlock)
    → UniqueTids s.threads
    → get_elem? s.threads i ≡ some t
    → get_elem? (exit_all tids s).threads i ≡ some (if has t.tid tids then exit t else t)
unfolding exit_all mark_exited
exit_all-at [] s i t unique at = at
exit_all-at (tid ∷ tids) s i t unique at =
    let unique' = exit_first-UniqueTids tid s.threads unique in
    let at' = exit_first-at tid s.threads i t unique at in
    elim (Bool-cases (t.tid == tid)) [
      | inl e ↦ exit_all-at tids _ i (exit t) unique' (at' ∙ rw e) ∙ ground arith
      | inr e ↦ exit_all-at tids _ i t unique' (at' ∙ rw e) ∙ ground arith
    ]

pub exit_all-from :
    (tids : List ℕ) (s : Scheduler) (i : ℕ) (u : ThreadControlBlock)
    → get_elem? (exit_all tids s).threads i ≡ some u
    → (t : ThreadControlBlock) × (get_elem? s.threads i ≡ some t)
      × (u.tid ≡ t.tid)
      × (u.pid ≡ t.pid)
unfolding exit_all mark_exited
exit_all-from [] s i u at = (u, at, refl, refl)
exit_all-from (tid ∷ tids) s i u at =
    let (v, at', e, f) = exit_all-from tids _ i u at in
    let (t, at'', e', f') = exit_first-from tid s.threads i v at' in (t, at'', e ∙ e', f ∙ f')
