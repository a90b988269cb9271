-- ===== src/Process/Table.antt =====
-- The process table as a map from ids.
use rix_os.Base.{
  ℕ, ◌≡◌, refl, ap, ◌∙◌, ◌≢◌, inl, inr, none, some, [], ◌∷◌, arith, ◌==◌, if◌then◌else◌,
  Option-cases,
}
use rix_os.Process.{
  ProcessControlBlock, ProcessTable, Entries, insert_entry, find_entry, insert, get, update,
}

find-insert :
    (k j : ℕ) (v : ProcessControlBlock) (m : Entries)
    → find_entry j (insert_entry k v m) ≡ (if k == j then some v else find_entry j m)
unfolding find_entry insert_entry
find-insert k j v [] = refl
find-insert k j v ((i, w) ∷ m) = ground (arith, find-insert k j v m)

-- A look-up after an insertion finds the new process under its id, and what was there under others.
pub get-insert :
    (pcb : ProcessControlBlock) (t : ProcessTable) (j : ℕ)
    → get j (insert pcb t) ≡ (if pcb.pid == j then some pcb else get j t)
unfolding get insert
get-insert pcb t j = find-insert pcb.pid j pcb t.processes

pub update-some :
    (pid : ℕ) (f : ProcessControlBlock → ProcessControlBlock) (t : ProcessTable)
    (pcb : ProcessControlBlock)
    → find_entry pid t.processes ≡ some pcb
    → update pid f t ≡ record t { processes = insert_entry pid (f pcb) t.processes }
unfolding update
update-some pid f t pcb e = rw (e, update)

pub update-none :
    (pid : ℕ) (f : ProcessControlBlock → ProcessControlBlock) (t : ProcessTable)
    → get pid t ≡ none
    → update pid f t ≡ t
unfolding update get
update-none pid f t e = rw (e, update)

-- `get_mut` and a change: under the id the changed process, elsewhere what was there.
pub get-update_self :
    (pid : ℕ) (f : ProcessControlBlock → ProcessControlBlock) (t : ProcessTable)
    (pcb : ProcessControlBlock)
    → get pid t ≡ some pcb
    → get pid (update pid f t) ≡ some (f pcb)
unfolding get
get-update_self pid f t pcb e =
    ap (λ (u : ProcessTable). find_entry pid u.processes) (update-some pid f t pcb e)
    ∙ find-insert pid pid (f pcb) t.processes
    ∙ ground arith

pub get-update_ne :
    (pid j : ℕ) (f : ProcessControlBlock → ProcessControlBlock) (t : ProcessTable)
    → j ≢ pid
    → get j (update pid f t) ≡ get j t
unfolding get
get-update_ne pid j f t ne = elim (Option-cases (find_entry pid t.processes)) [
  | inl e ↦ ap (λ (u : ProcessTable). find_entry j u.processes) (update-none pid f t e)
  | inr (pcb, e) ↦
      ap (λ (u : ProcessTable). find_entry j u.processes) (update-some pid f t pcb e)
      ∙ find-insert pid j (f pcb) t.processes
      ∙ ground arith
]

pub next_pid-update :
    (pid : ℕ) (f : ProcessControlBlock → ProcessControlBlock) (t : ProcessTable)
    → (update pid f t).next_pid ≡ t.next_pid
unfolding update
next_pid-update pid f t = ground arith
