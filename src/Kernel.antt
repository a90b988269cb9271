-- ===== src/Kernel.antt =====
-- The kernel's shared state, and the functions of kernel/src/process.rs and kernel/src/scheduler.rs
-- that work on it: `PROCESS_TABLE`, `SCHEDULER`, `NEXT_TID` and the memory with the kernel stacks.
pub mod Consistent
pub mod Create
pub mod Exit
pub mod History
pub mod Init
pub mod Tick
pub mod ExitAll
pub mod Commute
pub mod Ordered
use Prim.Native.String.{String}
use rix_os.Base.{
  ℕ, ◌+◌, ◌-◌, ◌^◌, Option, none, some, List, [], ◌∷◌, ◌++◌, ◌==◌, if◌then◌else◌, Exec, done, ◌>>=◌,
}
use rix_os.Machine.{Memory}
use rix_os.Scheduler
use rix_os.Scheduler.{Scheduler, ThreadState, ThreadControlBlock}
use rix_os.Thread
use rix_os.Process
use rix_os.Process.{ProcessControlBlock, ProcessState, ProcessTable}

pub record Kernel : Type 0 where
  pub table : ProcessTable
  pub sched : Scheduler
  pub next_tid : ℕ
  pub memory : Memory

-- The statics before `scheduler::init`.
unfoldable pub boot : Memory → Kernel
boot m = record {
  table = Process.new;
  sched = Scheduler.new;
  next_tid = Thread.first_tid;
  memory = m;
}

-- What the processor and the allocator supply: the address of `thread_trampoline`, the address of
-- the page table in CR3, and where the allocator puts the next stack.
pub record Supply : Type 0 where
  pub trampoline : ℕ
  pub cr3 : ℕ
  pub stack : ℕ

-- `spawn_thread`: the kernel after it, and the id of the new thread.
unfoldable pub spawn_thread : Supply → (pid entry_fn : ℕ) → Kernel → Kernel × ℕ
spawn_thread x pid entry_fn k =
    let c = Thread.new x.trampoline pid entry_fn x.stack k.memory k.next_tid in
    (
      record k {
        sched = Scheduler.add_thread c.tcb k.sched;
        next_tid = c.next_tid;
        memory = c.memory;
      },
      c.tcb.tid,
    )

-- The process that `create_process` puts into the table.
abbrev pub new_process : Supply → (pid : ℕ) → String → ProcessControlBlock
new_process x pid name = record {
  pid = pid;
  name = name;
  state = ProcessState.running;
  parent_pid = if pid == 0 then none else some 0;
  threads = [];
  exit_code = none;
  page_table = x.cr3;
}

-- `pcb.threads.push(tid)`
abbrev pub push_thread : ℕ → ProcessControlBlock → ProcessControlBlock
push_thread tid pcb = record pcb { threads = pcb.threads ++ tid ∷ [] }

-- The first lock of `create_process`: a new process without threads, and its id.
unfoldable pub register : Supply → String → Kernel → Kernel × ℕ
register x name k =
    let (pid, table) = Process.alloc_pid k.table in
    (record k { table = Process.insert (new_process x pid name) table }, pid)

-- `create_process`
unfoldable pub create_process : Supply → String → (entry_fn : ℕ) → Kernel → Kernel × ℕ
create_process x name entry_fn k =
    let (k, pid) = register x name k in
    let (k, tid) = spawn_thread x pid entry_fn k in
    (record k { table = Process.update pid (push_thread tid) k.table }, pid)

-- `for tid in thread_ids { mark_thread_exited(tid) }`
unfoldable pub exit_all : List ℕ → Scheduler → Scheduler
exit_all [] s = s
exit_all (tid ∷ tids) s = exit_all tids (Scheduler.mark_exited tid s)

-- `pcb.state = Zombie; pcb.exit_code = Some(exit_code)`
abbrev pub to_zombie : ℕ → ProcessControlBlock → ProcessControlBlock
to_zombie code pcb = record pcb { state = ProcessState.zombie; exit_code = some code }

-- `exit_process`: it returns at once where the process is not in the table.
unfoldable pub exit_process : (pid exit_code : ℕ) → Kernel → Kernel
exit_process pid code k = elim (Process.get pid k.table) [
  | none ↦ k
  | some pcb ↦ record k {
    table = Process.update pid (to_zombie code) k.table;
    sched = exit_all pcb.threads k.sched;
  }
]

-- A timer tick: `scheduler::tick` on the shared state.
unfoldable pub tick : Kernel → Exec Kernel
tick k = do s ← Scheduler.tick k.sched; done (record k { sched = s })

-- `current_pid` and `current_tid` of the running thread.
unfoldable pub current_pid : Kernel → Exec ℕ
current_pid k = Scheduler.current_pid k.sched

unfoldable pub current_tid : Kernel → Exec ℕ
current_tid k = Scheduler.current_tid k.sched

-- The kernel process and the idle thread, which runs on the boot stack and has no stack of its own.
abbrev pub kernel_process : Supply → (pid : ℕ) → ProcessControlBlock
kernel_process x pid = record {
  pid = pid;
  name = "kernel";
  state = ProcessState.running;
  parent_pid = none;
  threads = 0 ∷ [];
  exit_code = none;
  page_table = x.cr3;
}

abbrev pub idle : ThreadControlBlock
idle = record {
  tid = 0;
  pid = 0;
  state = ThreadState.running;
  context = record { rsp = 0 };
  kernel_stack = record { ptr = 0; len = 0 };
}

-- `scheduler::init` up to the demo processes.
unfoldable pub init_idle : Supply → Kernel → Kernel
init_idle x k =
    let (pid, table) = Process.alloc_pid k.table in
    record k {
      table = Process.insert (kernel_process x pid) table;
      sched = Scheduler.add_thread idle k.sched;
    }

-- `scheduler::init`, with the supplies of the two demo processes.
unfoldable pub init : (x y : Supply) → (demo_task_a demo_task_b : ℕ) → Kernel → Kernel
init x y demo_task_a demo_task_b k =
    let k = init_idle x k in
    let (k, a) = create_process x "demo_a" demo_task_a k in
    let (k, b) = create_process y "demo_b" demo_task_b k in k
