-- ===== src/Tests/Running.antt =====
-- The machine that `kernel_main` has started, and machines on which it fails.
use rix_os.Base.{ℕ, ◌≡◌, refl, inl, some, none, true, false, done, panic}
use rix_os.Tests.Hardware.{Registers}
use rix_os.Tests.Devices.{virt}
use rix_os.Tests.Descriptors.{no_segments}
use rix_os.Tests.Logs.{no_logger}
use rix_os.Apic.{unknown_model}
use rix_os.Interrupts.{returns}
use rix_os.Interrupts.Locks.{Shared}
use rix_os.Interrupts.Locks as Locks
use rix_os.Startup.{off, start_up}
use rix_os.Startup.Conditions.{info_of}
use rix_os.Startup.Boots.{start_up_lem}
use rix_os.Startup.NoApic.{Panics, other, start_up-Panics}
use rix_os.Startup.Fails.{start_up-panic}
use rix_os.Tests.Startups.{
  handover, platform, platform-CanBoot, platform-HasHeap, MachineState, devices,
}

-- The started machine, its memory with the 8192 frames of the heap.
abbrev up : MachineState
up =
    (start_up_lem platform no_logger handover virt 2 1 no_segments (λ a. 0) devices platform-CanBoot
      platform-HasHeap).0

abbrev free_lock : Shared ℕ ℕ Registers
free_lock = record { system = up.system; held = false }

abbrev in_lock : Shared ℕ ℕ Registers
in_lock = record { system = up.system; held = true }

-- No frame buffer.
start_up-panic_example :
    start_up platform
      (record (info_of handover) { framebuffer = none })
      (off no_logger no_segments (λ a. 0) devices)
    ≡ panic
start_up-panic_example =
    start_up-panic platform (record (info_of handover) { framebuffer = none })
      (off no_logger no_segments (λ a. 0) devices) (inl refl)

-- Tables that name no APICs.
start_up-Panics_example :
    (s : MachineState) × (start_up
        (other platform no_logger handover virt 2 1 (λ tables. some unknown_model))
        (info_of handover)
        (off no_logger no_segments (λ a. 0) devices)
      ≡ done (returns s))
    × (s.interrupts_enabled ≡ true)
    × Panics platform no_logger handover virt 2 1 (λ tables. some unknown_model) s
start_up-Panics_example =
    start_up-Panics platform no_logger handover virt 2 1 (λ tables. some unknown_model) no_segments
      (λ a. 0) devices platform-CanBoot platform-HasHeap refl
