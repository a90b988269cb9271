-- ===== src/Tests/Switching.antt =====
-- The context switch of kernel/src/context.rs into a thread just made.
use rix_os.Base.{◌≡◌, refl, ◌%◌, false, true, arith, done}
use rix_os.Machine.{Cpu, Memory, write, run}
use rix_os.Context.{context_switch}
use rix_os.Context.Switch.{frame_of}
use rix_os.Context.Resume.{CanSwitch, LeavesAlone, context_switch_lem, context_switch_back}
use rix_os.Thread.{store_frame, new, thread_trampoline}
use rix_os.Thread.Fresh.{fresh_frame, IsFresh, new-IsFresh, first_entry}

-- The frame of a new thread at 0x2008, to which the context at 0x200 points.
abbrev ram : Memory
ram = store_frame 0x77 0x55 0x2008 (write (λ a. 0) 0x200 0x2008)

abbrev before : Cpu
before = record {
  rbx = 1;
  rbp = 2;
  r12 = 3;
  r13 = 4;
  r14 = 5;
  r15 = 6;
  rsp = 0x1030;
  rdi = 0x100;
  rsi = 0x200;
  rip = 0x99;
  interrupts = false;
  memory = ram;
}

before-CanSwitch : CanSwitch before 0x1000 0x2008 (fresh_frame 0x77 0x55)
unfolding store_frame write
before-CanSwitch = omega arith

first_entry_example :
    (c' c'' : Cpu) × (run context_switch before ≡ done c')
    × (c'.rip ≡ 0x77)
    × (run (thread_trampoline 0x79) c' ≡ done c'')
    × (c''.rip ≡ 0x55)
    × (c''.interrupts ≡ true)
    × (c''.rsp % 16 ≡ 8)
first_entry_example = first_entry 0x77 0x55 0x79 0x1000 0x2008 before before-CanSwitch refl

-- The processor behind that switch, and later when the other task calls `context_switch` with a
-- stack of its own at 0x3000.
abbrev after : Cpu
after = (context_switch_lem before 0x1000 0x2008 (fresh_frame 0x77 0x55) before-CanSwitch).0

abbrev later : Cpu
later = record after { rsp = 0x3030; rdi = 0x200; rsi = 0x100 }

after_runs : run context_switch before ≡ done after
after_runs = (context_switch_lem before 0x1000 0x2008 (fresh_frame 0x77 0x55) before-CanSwitch).1

nothing_written : LeavesAlone after later 0x100 0x1000
nothing_written = record { slot_kept = refl; frame_kept = λ x p q. refl }

context_switch_back_example :
    (d' : Cpu) × (run context_switch later ≡ done d')
    × (frame_of d' d'.rip ≡ frame_of before (ram 0x1030))
    × (d'.rsp ≡ 0x1038)
context_switch_back_example =
    context_switch_back before after later 0x1000 0x2008 0x3000 (fresh_frame 0x77 0x55)
      before-CanSwitch after_runs nothing_written refl refl (omega arith) (omega arith)
      (omega arith) (omega arith) (omega arith) (omega arith)

new-IsFresh_example : IsFresh 0x77 3 0x55 0x5001 (λ a. 0) 2 (new 0x77 3 0x55 0x5001 (λ a. 0) 2)
new-IsFresh_example = new-IsFresh 0x77 3 0x55 0x5001 (λ a. 0) 2 (omega arith)
