-- ===== src/Demo/Reports.antt =====
-- What a demo task of kernel/src/scheduler.rs reports.
use rix_os.Base.{
  ℕ, zero, suc, ◌+◌, ◌-◌, ◌/◌, ◌%◌, ◌^◌, ◌<◌, ◌≡◌, refl, ap, List, [], ◌∷◌, ◌==◌, u64, done, arith,
  Bool-cases, inl, inr, some, get_elem?_of_lt, ==_iff, ◌≢◌, get_elem?,
}
use rix_os.Scheduler
use rix_os.Scheduler.{ThreadControlBlock}
use rix_os.Process.{ProcessControlBlock}
use rix_os.Kernel.{Kernel, current_pid, current_tid}
use rix_os.Kernel.Consistent.{HasProcess, IsConsistent}
use rix_os.Demo.{Report, demo_loop, demo_task}

-- The reports `from`, `from + 1` and so on, `n` of them.
abbrev pub reports : (pid tid : ℕ) → (n from : ℕ) → List Report
reports pid tid zero from = []
reports pid tid (suc n) from =
    record { pid = pid; tid = tid; tick = from } ∷ reports pid tid n (suc from)

-- How many counts below `count` are reported.
abbrev pub due : ℕ → ℕ
due count = (count + 9_999_999) / 10_000_000

demo_loop-eq :
    (rounds pid tid count : ℕ)
    → count + rounds < 2 ^ 64
    → demo_loop rounds pid tid count
      ≡ (reports pid tid (due (count + rounds) - due count) (due count), count + rounds)
unfolding demo_loop
demo_loop-eq zero pid tid count h =
    let same : count ≡ count + 0 = omega arith in
    let nothing : due (count + 0) - due count ≡ 0 = omega arith in
    rw nothing (ap (λ c. ([], c)) same)
demo_loop-eq (suc rounds) pid tid count h =
    let next : u64 (count + 1) ≡ count + 1 = omega arith in
    let last : count + 1 + rounds ≡ count + suc rounds = omega arith in
    let rest = demo_loop-eq rounds pid tid (count + 1) (omega arith) in
    elim (Bool-cases (count % 10_000_000 == 0)) [
      | inl t ↦
          let whole : count % 10_000_000 ≡ 0 = (==_iff _ _).0 t in
          let here : count / 10_000_000 ≡ due count = omega arith in
          let after : due (count + 1) ≡ suc (due count) = omega arith in
          let one : due (count + suc rounds) - due count
              ≡ suc (due (count + suc rounds) - suc (due count)) =
            omega arith in
          rw (next, t, rest, last, after, one, here) refl
      | inr f ↦
          let part : count % 10_000_000 ≢ 0 = ground arith in
          let after : due (count + 1) ≡ due count = omega arith in
          rw (next, f, rest, last, after) refl
    ]

-- A demo task on the processor of a consistent kernel does not panic, and reports, with the ids of
-- its own thread and a process in the table, the numbers 0, 1, 2 and so on, in order and each once:
-- within `rounds` rounds one for each ten million begun.
pub demo_task_lem :
    (rounds : ℕ) (k : Kernel)
    → IsConsistent k
    → rounds < 2 ^ 64
    → (t : ThreadControlBlock) × (pcb : ProcessControlBlock) × (get_elem? k.sched.threads
          k.sched.current
        ≡ some t)
      × HasProcess k t.pid pcb
      × (demo_task rounds k ≡ done (reports t.pid t.tid (due rounds) 0, rounds))
unfolding demo_task current_pid current_tid Scheduler.current_pid Scheduler.current_tid
demo_task_lem rounds k c h =
    let (t, at) = get_elem?_of_lt k.sched.threads k.sched.current c.valid.in_range in
    let o = c.owned k.sched.current t at in
    let from_zero : 0 + rounds ≡ rounds = omega arith in
    let all : due rounds - due 0 ≡ due rounds = omega arith in
    (
      t,
      o.owner,
      at,
      o.in_table,
      rw (at, demo_loop-eq rounds t.pid t.tid 0 (omega arith), from_zero, all) refl,
    )
