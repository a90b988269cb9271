-- ===== src/Process.antt =====
-- kernel/src/process.rs: processes and their table.
pub mod Table
pub mod Canonical
use Prim.Native.String.{String}
use rix_os.Base.{ℕ, ◌+◌, Option, none, some, List, [], ◌∷◌, ◌==◌, ltb, if◌then◌else◌, length, u64}

pub data ProcessState : Type 0 where
  running zombie exited : ProcessState

-- An exit code, an `i32`, stands here by its bit pattern: it is only stored.
pub record ProcessControlBlock : Type 0 where
  pub pid : ℕ
  pub name : String
  pub state : ProcessState
  pub parent_pid : Option ℕ
  pub threads : List ℕ
  pub exit_code : Option ℕ
  pub page_table : ℕ

-- A `BTreeMap` from process ids: its entries in the order of their keys.
abbrev pub Entries : Type 0
Entries = List (ℕ × ProcessControlBlock)

unfoldable pub insert_entry : ℕ → ProcessControlBlock → Entries → Entries
insert_entry k v [] = (k, v) ∷ []
insert_entry k v ((j, w) ∷ m) =
    if k == j
    then (k, v) ∷ m
    else if ltb k j
    then (k, v) ∷ (j, w) ∷ m
    else (j, w) ∷ insert_entry k v m

unfoldable pub find_entry : ℕ → Entries → Option ProcessControlBlock
find_entry k [] = none
find_entry k ((j, w) ∷ m) = if j == k then some w else find_entry k m

pub record ProcessTable : Type 0 where
  pub processes : Entries
  pub next_pid : ℕ

-- `ProcessTable::new`
unfoldable pub new : ProcessTable
new = record { processes = []; next_pid = 0 }

-- `ProcessTable::alloc_pid`: the id, and the table after it.
unfoldable pub alloc_pid : ProcessTable → ℕ × ProcessTable
alloc_pid t = (t.next_pid, record t { next_pid = u64 (t.next_pid + 1) })

unfoldable pub insert : ProcessControlBlock → ProcessTable → ProcessTable
insert pcb t = record t { processes = insert_entry pcb.pid pcb t.processes }

unfoldable pub get : ℕ → ProcessTable → Option ProcessControlBlock
get pid t = find_entry pid t.processes

-- `if let Some(pcb) = table.get_mut(pid) { pcb = f(pcb) }`: nothing happens without an entry.
unfoldable pub update :
    ℕ → (ProcessControlBlock → ProcessControlBlock) → ProcessTable → ProcessTable
update pid f t = elim (find_entry pid t.processes) [
  | none ↦ t
  | some pcb ↦ record t { processes = insert_entry pid (f pcb) t.processes }
]

unfoldable pub len : ProcessTable → ℕ
len t = length t.processes
