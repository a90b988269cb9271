-- ===== src/Tests/Reporting.antt =====
-- What the demo tasks report, and what exceptions print.
use rix_os.Base.{ℕ, ◌≡◌, refl, none, some, [], ◌∷◌, ◌++◌, List, done, chars, get_elem?, arith}
use rix_os.Scheduler.{ThreadControlBlock}
use rix_os.Process.{ProcessControlBlock}
use rix_os.Kernel.Consistent.{HasProcess}
use rix_os.Tests.Processes.{started, started-IsConsistent}
use rix_os.Tests.Devices.{font}
use rix_os.Tests.Logs.{uart, uart_laws}
use rix_os.Demo.{demo_task}
use rix_os.Demo.Reports.{reports, demo_task_lem}
use rix_os.Interrupts.{Entry, idt, lookup}
use rix_os.Interrupts.Messages.{Printed, report}
use rix_os.Interrupts.Messages.Names.{report_lem}

-- Two reports in ten million and one rounds.
demo_task_example :
    (t : ThreadControlBlock) × (pcb : ProcessControlBlock) × (get_elem? started.sched.threads
        started.sched.current
      ≡ some t)
    × HasProcess started t.pid pcb
    × (demo_task 10_000_001 started ≡ done (reports t.pid t.tid 2 0, 10_000_001))
demo_task_example = demo_task_lem 10_000_001 started started-IsConsistent (omega arith)

-- A stack frame of one piece.
abbrev printed : Printed
printed = record { stack_frame = (0x66 ∷ []) ∷ []; error_code = 0x32 ∷ []; address = 0x33 ∷ [] }

report_example :
    (e : Entry) × (q : List ℕ) × (rest : List ℕ) × (lookup 14 idt ≡ some e)
    × (report font uart e.handler printed (none, none) ≡ done (none, some q))
    × (q ≡ chars "EXCEPTION: " ++ (chars "PAGE FAULT" ++ rest))
report_example = report_lem uart uart_laws font 14 "PAGE FAULT" printed none none refl
