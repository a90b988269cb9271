-- ===== src/Lib.antt =====
-- Verification library of rix-os, a small x86_64 kernel in Rust.
--
-- The kernel keeps a table of processes and a list of threads. A timer interrupt ends in
-- `scheduler::tick`, which picks the next Ready thread round robin and switches stacks. Processes
-- are made with one main thread each, and end as zombies whose threads are marked Exited.
--
-- Base: shared names. Base.Panics has `Exec`, the result of code that may panic (an index out of
--   range, `unwrap` of `None`); Base.Words the casts to fixed widths; Base.Bits laws of `&` and `|`.
-- Scheduler: kernel/src/scheduler.rs, `ThreadState`, `ThreadControlBlock` and `Scheduler` with its
--   methods. The two context pointers that `prepare_switch` returns are places in the thread list.
--   `usize` sums wrap at 2 ^ 64; a valid list has at most 2 ^ 63 threads, as a `Vec` does.
-- Machine: the registers, the interrupt flag and the memory of 64-bit words that the assembly uses.
-- Context: kernel/src/context.rs, `context_switch` as a list of instructions.
-- Thread: `ThreadControlBlock::new`, `NEXT_TID` and `thread_trampoline` of kernel/src/scheduler.rs.
--   Where the allocator puts a stack and where the trampoline lies are arguments.
-- Process: kernel/src/process.rs, `ProcessControlBlock` and `ProcessTable`. The `BTreeMap` is the
--   list of its entries in the order of their keys.
-- Kernel: the statics PROCESS_TABLE, SCHEDULER and NEXT_TID as one state, with `create_process`,
--   `exit_process`, `spawn_thread`, `tick` and `scheduler::init` on it. A function is one
--   step here, as no interrupt comes in between; Interrupts.Locks has the finer steps. The id
--   counters wrap at 2 ^ 64; theorems about new ids assume that they do not.
-- Io: the ports of the processor, with the devices behind them as a state.
-- Pci: kernel/src/pcie.rs, the list of functions that `enumerate_pci` logs. Pci.Space says what the
--   host bridge does with the ports 0xCF8 and 0xCFC.
-- PhysMemory: kernel/src/memory/mod.rs, the mapping of physical memory and the page walk.
-- Frames: kernel/src/memory/page_allocator.rs, `AbyssFrameAllocator`. A region's addresses are its
--   pages, as many as `(end - start) / 4096` rounded up.
-- Heap: kernel/src/memory/heap_allocator.rs, the loop that maps the heap on frames of Frames.
-- AcpiHandler: kernel/src/acpi/handler.rs, memory, port and configuration accesses.
-- Acpi: kernel/src/acpi/mod.rs, the search for the sleep type and `shutdown`. The crates acpi and
--   aml are a record of functions; an error, which is only logged, is `none`.
-- Apic: kernel/src/apic.rs, the statics IOAPIC and LAPIC and their set-up.
-- Interrupts: kernel/src/interrupts.rs, the table and the handlers, on the state of Kernel, Apic,
--   Acpi and Console together. Interrupts.Locks adds the spin lock of SCHEDULER, which the timer's
--   handler takes and which a thread may hold with interrupts on; the locks of SERIAL and CONSOLE are
--   held with interrupts off only, and no thread takes that of LAPIC. Interrupts.Messages has what
--   the handlers of exceptions print on the console and on the serial line.
-- Console: kernel/src/console.rs, text drawn into the frame buffer; the font is a parameter.
-- Bga: kernel/src/bga.rs, the registers of the graphics adapter.
-- Segments: kernel/src/gdt.rs, the task state segment, the descriptors and the registers. The table
--   of the crate x86_64 is an interface, whose documented laws Segments.Loaded lists.
-- Logging: kernel/src/logging.rs and kernel/src/serial.rs, the log and the serial line. The crates
--   log and uart_16550 are interfaces, whose documented laws Logging.Records lists.
-- Tasks: `tick`, `spawn_thread` and `mark_thread_exited` on the whole machine: Scheduler, Context
--   and Thread over one memory, with the contexts as words of it and each stack a range of it. The
--   list of threads has the capacity for those that are added, so that its elements do not move.
-- Startup: `kernel_main` of kernel/src/main.rs, which calls the parts in their order. `start_up` is
--   the code up to `enable_interrupts`, `run` the rest up to the last loop. Startup.Conditions lists
--   what a machine has to offer; Startup.Fails and Startup.NoApic are about machines that lack it.
-- Logo: the part of `kernel_main` in kernel/src/main.rs, which draws the logo.
-- Demo: the two demo tasks of kernel/src/scheduler.rs, for any number of rounds of their loops.
-- Qemu: kernel/src/qemu.rs.
-- MemoryInit: `memory::init` and `page_allocator::init`, on Frames and Heap.
-- AllocTest: `alloc_test` of kernel/src/memory/mod.rs. The loop of `alloc_pass` has fuel 15, since
--   its size doubles from 32 and ends it at 512 * 1024.
-- Tests: runs at concrete inputs, and each theorem applied where its hypotheses hold.
--
-- Outside Logging log lines are left out. An allocation from the empty heap halts for good, as
-- `alloc_error_handler` of kernel/src/memory/heap_allocator.rs does; one from the mapped heap
-- succeeds. A dereference of AcpiHandler at a misaligned address and a table shorter than its
-- header in Acpi panic, as with debug assertions and overflow checks. `run` is `kernel_main` with
-- no interrupt in between; what interrupts do is said of `start_up`'s end on.
--
-- Every other loop of the source runs over a range or a list, and needs no fuel. Not modelled:
-- kernel/src/lib.rs, which has only module lines, and the launcher in src/ and build.rs, which runs
-- on the host.
pub mod Base
pub mod Scheduler
pub mod Machine
pub mod Context
pub mod Thread
pub mod Process
pub mod Kernel
pub mod Io
pub mod Pci
pub mod PhysMemory
pub mod AcpiHandler
pub mod Frames
pub mod Console
pub mod Acpi
pub mod Apic
pub mod Interrupts
pub mod Heap
pub mod Bga
pub mod Logo
pub mod AllocTest
pub mod MemoryInit
pub mod Segments
pub mod Logging
pub mod Tasks
pub mod Startup
pub mod Demo
pub mod Qemu
pub mod Tests
