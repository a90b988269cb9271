-- ===== src/Interrupts.antt =====
-- kernel/src/interrupts.rs: the interrupt table and its handlers.
pub mod Delivery
pub mod Locks
pub mod Messages
use rix_os.Base.{
  ℕ, ◌+◌, Bool, true, false, Option, none, some, List, [], ◌∷◌, ◌++◌, ◌==◌, if◌then◌else◌, u8, Exec,
  done, panic, ◌>>=◌, unwrap,
}
use rix_os.Io.{Ports}
use rix_os.PhysMemory.{Addresses, Offset}
use rix_os.Kernel
use rix_os.Kernel.{Kernel}
use rix_os.Acpi.{AcpiShutdown, shutdown}
use rix_os.Apic.{Chips, Apics, LApic, end_interrupts}
use rix_os.Console.{Raster, NotoFontDisplay, print}

-- `InterruptIndex`
pub data InterruptIndex : Type 0 where
  timer keyboard lapic_error spurious : InterruptIndex

abbrev pub as_u8 : InterruptIndex → ℕ
as_u8 timer = 32
as_u8 keyboard = 33
as_u8 lapic_error = 51
as_u8 spurious = 0xff

-- The handlers that only print on the serial line: those of `simple_handlers` and
-- `error_code_handlers`, and the page fault's.
pub data Exception : Type 0 where
  divide_by_zero debug non_maskable_interrupt overflow bound_range_exceeded invalid_opcode :
      Exception
  device_not_available x87_floating_point simd_floating_point virtualization : Exception
  invalid_tss segment_not_present stack_segment_fault general_protection_fault : Exception
  alignment_check security_exception page_fault : Exception

-- The functions of the table.
pub data Handler : Type 0 where
  exception : Exception → Handler
  breakpoint_handler double_fault_handler machine_check_handler : Handler
  timer_interrupt_handler keyboard_interrupt_handler lapic_error_handler : Handler
  spurious_interrupt_handler : Handler

pub record Entry : Type 0 where
  pub vector : ℕ
  pub handler : Handler
  pub stack_index : Option ℕ

-- `set_handler_fn`
abbrev pub entry : (vector : ℕ) → Handler → Entry
entry vector handler = record { vector = vector; handler = handler; stack_index = none }

-- Each field of `InterruptDescriptorTable` stands for its vector in the processor's numbering.
abbrev pub simple_handlers : List Entry
simple_handlers =
    entry 0 (exception divide_by_zero)
    ∷ entry 1 (exception debug)
    ∷ entry 2 (exception non_maskable_interrupt)
    ∷ entry 4 (exception overflow)
    ∷ entry 5 (exception bound_range_exceeded)
    ∷ entry 6 (exception invalid_opcode)
    ∷ entry 7 (exception device_not_available)
    ∷ entry 16 (exception x87_floating_point)
    ∷ entry 19 (exception simd_floating_point)
    ∷ entry 20 (exception virtualization)
    ∷ entry 3 breakpoint_handler
    ∷ []

abbrev pub error_code_handlers : List Entry
error_code_handlers =
    entry 10 (exception invalid_tss)
    ∷ entry 11 (exception segment_not_present)
    ∷ entry 12 (exception stack_segment_fault)
    ∷ entry 13 (exception general_protection_fault)
    ∷ entry 17 (exception alignment_check)
    ∷ entry 30 (exception security_exception)
    ∷ []

-- The rest of `IDT`; the double fault runs on the stack `DOUBLE_FAULT_IST_INDEX`, 0.
abbrev pub other_handlers : List Entry
other_handlers =
    record { vector = 8; handler = double_fault_handler; stack_index = some 0 }
    ∷ entry 18 machine_check_handler
    ∷ entry 14 (exception page_fault)
    ∷ entry (as_u8 timer) timer_interrupt_handler
    ∷ entry (as_u8 keyboard) keyboard_interrupt_handler
    ∷ entry (as_u8 lapic_error) lapic_error_handler
    ∷ entry (as_u8 spurious) spurious_interrupt_handler
    ∷ []

abbrev pub idt : List Entry
idt = simple_handlers ++ error_code_handlers ++ other_handlers

-- The entry that the processor finds for a vector.
unfoldable pub lookup : ℕ → List Entry → Option Entry
lookup v [] = none
lookup v (e ∷ es) = if v == e.vector then some e else lookup v es

-- The state that handlers work on.
pub record System (C L H : Type 0) : Type 0 where
  pub kernel : Kernel
  pub apics : Apics C L H
  pub shutdown_info : AcpiShutdown
  pub console : Option NotoFontDisplay

-- A handler returns to what was interrupted (or, from the timer, to the thread now current), or
-- halts for good.
pub data Outcome (S : Type 0) : Type 0 where
  returns : S → Outcome S
  halts : S → Outcome S

module _ {C E L H : Type 0} (chips : Chips C E L) (io : Ports H) (x : Addresses) (o : Offset)
    (get_raster : (char font_weight raster_height : ℕ) → Option Raster) where
  -- `LAPIC.get().unwrap().lock().end_interrupts()`
  unfoldable pub send_eoi : System C L H → Exec (System C L H)
  send_eoi s = do
    a ← unwrap s.apics.local
    a ← end_interrupts chips io x o a
    done (record s { apics = record s.apics { local = some a } })

  -- `timer_interrupt_handler`
  unfoldable pub on_timer : System C L H → Exec (System C L H)
  on_timer s = do s ← send_eoi s; k ← Kernel.tick s.kernel; done (record s { kernel = k })

  -- `keyboard_interrupt_handler`
  unfoldable pub on_keyboard : System C L H → Exec (System C L H)
  on_keyboard s =
      let read = io.in8 0x60 s.apics.devices in
      let devices = if read.0 == 28 then shutdown io s.shutdown_info read.1 else read.1 in
      send_eoi (record s { apics = record s.apics { devices = devices } })

  -- `breakpoint_handler`; `pieces` is the text of the stack frame.
  unfoldable pub on_breakpoint : (pieces : List (List ℕ)) → System C L H → Exec (System C L H)
  on_breakpoint pieces s = do c ← print get_raster pieces s.console; done (record s { console = c })

  -- The call of a handler.
  unfoldable pub handle :
      (pieces : List (List ℕ)) → Handler → System C L H → Exec (Outcome (System C L H))
  handle pieces (exception e) s = done (returns s)
  handle pieces breakpoint_handler s = on_breakpoint pieces s >>= λ s. done (returns s)
  handle pieces double_fault_handler s = done (halts s)
  handle pieces machine_check_handler s = done (halts s)
  handle pieces timer_interrupt_handler s = on_timer s >>= λ s. done (returns s)
  handle pieces keyboard_interrupt_handler s = on_keyboard s >>= λ s. done (returns s)
  handle pieces lapic_error_handler s = send_eoi s >>= λ s. done (returns s)
  handle pieces spurious_interrupt_handler s = done (returns s)
