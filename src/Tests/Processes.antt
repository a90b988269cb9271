-- ===== src/Tests/Processes.antt =====
-- The kernel after `scheduler::init`, and the end of the first demo process.
use rix_os.Base.{ℕ, ◌≡◌, refl, ◌≢◌, some, none, [], ◌∷◌, arith}
use rix_os.Scheduler
use rix_os.Scheduler.{ThreadControlBlock, ThreadState, Scheduler}
use rix_os.Scheduler.Steps.{IsGone}
use rix_os.Thread
use rix_os.Process
use rix_os.Process.{ProcessControlBlock, ProcessState}
use rix_os.Kernel.{
  Kernel, Supply, boot, init, init_idle, create_process, exit_process, register, spawn_thread,
}
use rix_os.Kernel.Consistent.{ThreadAt, HasProcess, IsConsistent}
use rix_os.Kernel.Create.{HasRoom}
use rix_os.Kernel.Create.Keeps.{HasCreated, create_process_lem}
use rix_os.Kernel.Exit.{exit_process_lem, HasExited}
use rix_os.Kernel.History.{KernelReach, KernelStep, KernelReach-IsConsistent, exited_process-IsGone}
use rix_os.Kernel.Commute.{exit_process_comm}
use rix_os.Kernel.Init.{init-IsConsistent}

abbrev pub supply : ℕ → Supply
supply stack = record { trampoline = 0x77; cr3 = 0x1000; stack = stack }

-- Three threads: idle, demo_a and demo_b.
abbrev pub started : Kernel
started = init (supply 0x10000) (supply 0x20000) 0x55 0x66 (boot (λ a. 0))

pub started-IsConsistent : IsConsistent started
started-IsConsistent = init-IsConsistent (supply 0x10000) (supply 0x20000) 0x55 0x66 (λ a. 0)

abbrev demo_a : ProcessControlBlock
demo_a = record {
  pid = 1;
  name = "demo_a";
  state = ProcessState.running;
  parent_pid = some 0;
  threads = 1 ∷ [];
  exit_code = none;
  page_table = 0x1000;
}

abbrev thread_a : ThreadControlBlock
thread_a = record {
  tid = 1;
  pid = 1;
  state = ThreadState.ready;
  context = record { rsp = 0x13fc8 };
  kernel_stack = record { ptr = 0x10000; len = 0x4000 };
}

demo_a_registered : HasProcess started 1 demo_a
unfolding init init_idle boot create_process register spawn_thread Process.new Process.alloc_pid
    Process.insert Process.get Process.update Process.insert_entry Process.find_entry Thread.new
demo_a_registered = refl

thread_a_place : ThreadAt started 1 thread_a
unfolding init init_idle boot create_process register spawn_thread Process.new Process.alloc_pid
    Process.insert Thread.new Thread.initial_rsp Thread.stack_top Scheduler.new Scheduler.add_thread
thread_a_place = refl

started_current : started.sched.current ≡ 0
unfolding init init_idle boot create_process register spawn_thread Process.alloc_pid Scheduler.new
    Scheduler.add_thread
started_current = refl

started-HasRoom : HasRoom started
unfolding init init_idle boot create_process register spawn_thread Process.new Process.alloc_pid
    Process.insert Process.update Process.insert_entry Process.find_entry Thread.new Scheduler.new
    Scheduler.add_thread
started-HasRoom = omega arith

exit_process_example : HasExited 1 7 demo_a started (exit_process 1 7 started)
exit_process_example = exit_process_lem 1 7 started demo_a started-IsConsistent demo_a_registered

create_process_example :
    HasCreated
      (supply 0x30000)
      "shell"
      0x88
      started
      (create_process (supply 0x30000) "shell" 0x88 started).0
      (create_process (supply 0x30000) "shell" 0x88 started).1
create_process_example =
    create_process_lem (supply 0x30000) "shell" 0x88 started started-IsConsistent started-HasRoom
      (omega arith)

-- After the end of demo_a its second exit changes nothing of its thread.
abbrev afterwards :
    KernelReach (exit_process 1 7 started) (exit_process 1 8 (exit_process 1 7 started))
afterwards = KernelReach.next KernelReach.here (KernelStep.exit 1 8)

KernelReach-IsConsistent_example : IsConsistent (exit_process 1 8 (exit_process 1 7 started))
KernelReach-IsConsistent_example = KernelReach-IsConsistent started-IsConsistent (
    KernelReach.next (KernelReach.next KernelReach.here (KernelStep.exit 1 7))
      (KernelStep.exit 1 8))

exited_process-IsGone_example : IsGone (exit_process 1 8 (exit_process 1 7 started)).sched 1
exited_process-IsGone_example =
    exited_process-IsGone 1 7 started (exit_process 1 8 (exit_process 1 7 started)) demo_a 1
      thread_a started-IsConsistent demo_a_registered thread_a_place refl not_current afterwards
  where
    not_current : 1 ≢ started.sched.current
    not_current e = omega (arith, started_current)

-- The two demo processes end.
exit_process_comm_example :
    exit_process 1 7 (exit_process 2 8 started) ≡ exit_process 2 8 (exit_process 1 7 started)
exit_process_comm_example =
    exit_process_comm (supply 0x10000) (supply 0x20000) 0x55 0x66 (λ a. 0) 1 2 7 8 started
      KernelReach.here (omega arith)
