-- ===== src/Interrupts/Messages.antt =====
-- kernel/src/interrupts.rs: what the handlers of exceptions print on the serial line.
pub mod Names
use Prim.Native.String.{String}
use rix_os.Base.{ℕ, Option, none, some, List, [], ◌∷◌, ◌++◌, Exec, done, chars, ◌>>=◌}
use rix_os.Console as Console
use rix_os.Console.{Raster, NotoFontDisplay}
use rix_os.Logging.{Uart, print}
use rix_os.Interrupts.{
  Exception, divide_by_zero, debug, non_maskable_interrupt, overflow, bound_range_exceeded,
  invalid_opcode, device_not_available, x87_floating_point, simd_floating_point, virtualization,
  invalid_tss, segment_not_present, stack_segment_fault, general_protection_fault, alignment_check,
  security_exception, page_fault, Handler, exception, breakpoint_handler, double_fault_handler,
  machine_check_handler, timer_interrupt_handler, keyboard_interrupt_handler, lapic_error_handler,
  spurious_interrupt_handler,
}

-- `$info` of `simple_handlers!` and `error_code_handlers!`, and the page fault's name.
abbrev pub info : Exception → String
info divide_by_zero = "DIVIDE BY ZERO"
info debug = "DEBUG"
info non_maskable_interrupt = "NON MASKABLE INTERRUPT"
info overflow = "OVERFLOW"
info bound_range_exceeded = "BOUND RANGE EXCEEDED"
info invalid_opcode = "INVALID OPCODE"
info device_not_available = "DEVICE NOT AVAILABLE"
info x87_floating_point = "X87 FLOATING POINT"
info simd_floating_point = "SIMD FLOATING POINT"
info virtualization = "VIRTUALIZATION"
info invalid_tss = "INVALID TSS"
info segment_not_present = "SEGMENT NOT PRESENT"
info stack_segment_fault = "STACK SEGMENT FAULT"
info general_protection_fault = "GENERAL PROTECTION FAULT"
info alignment_check = "ALIGNMENT CHECK"
info security_exception = "SECURITY EXCEPTION"
info page_fault = "PAGE FAULT"

-- What the processor hands to a handler, as it is printed: the stack frame, the error code and, of a
-- page fault, the address in CR2.
pub record Printed : Type 0 where
  pub stack_frame : List (List ℕ)
  pub error_code : List ℕ
  pub address : List ℕ

-- "EXCEPTION: {}\n{:#?}"
abbrev pub simple_text : String → Printed → List (List ℕ)
simple_text name p =
    chars "EXCEPTION: " ∷ chars name ∷ chars "\n" ∷ (p.stack_frame ++ chars "\n" ∷ [])

-- "EXCEPTION: {} - ERROR CODE: {}\n{:#?}"
abbrev pub error_code_text : String → Printed → List (List ℕ)
error_code_text name p =
    chars "EXCEPTION: "
    ∷ chars name
    ∷ chars " - ERROR CODE: "
    ∷ p.error_code
    ∷ chars "\n"
    ∷ (p.stack_frame ++ chars "\n" ∷ [])

abbrev pub page_fault_text : Printed → List (List ℕ)
page_fault_text p =
    chars "EXCEPTION: "
    ∷ chars "PAGE FAULT"
    ∷ chars " - ERROR CODE: "
    ∷ p.error_code
    ∷ chars "\nAccessed Address: "
    ∷ p.address
    ∷ chars "\n"
    ∷ (p.stack_frame ++ chars "\n" ∷ [])

abbrev pub exception_text : Exception → Printed → List (List ℕ)
exception_text invalid_tss = error_code_text (info invalid_tss)
exception_text segment_not_present = error_code_text (info segment_not_present)
exception_text stack_segment_fault = error_code_text (info stack_segment_fault)
exception_text general_protection_fault = error_code_text (info general_protection_fault)
exception_text alignment_check = error_code_text (info alignment_check)
exception_text security_exception = error_code_text (info security_exception)
exception_text page_fault = page_fault_text
exception_text e = simple_text (info e)

-- The `serial_println!` of a handler; those of the hardware interrupts have none.
abbrev pub serial_text : Handler → Printed → Option (List (List ℕ))
serial_text (exception e) p = some (exception_text e p)
serial_text breakpoint_handler p = some (simple_text "BREAKPOINT" p)
serial_text double_fault_handler p = some (error_code_text "DOUBLE FAULT" p)
serial_text machine_check_handler p = some (simple_text "MACHINE CHECK" p)
serial_text timer_interrupt_handler p = none
serial_text keyboard_interrupt_handler p = none
serial_text lapic_error_handler p = none
serial_text spurious_interrupt_handler p = none

abbrev pub print_if : {P : Type 0} → Uart P → Option (List (List ℕ)) → Option P → Exec (Option P)
print_if u none serial = done serial
print_if u (some pieces) serial = print u pieces serial

module _ (get_raster : (char font_weight raster_height : ℕ) → Option Raster) where
  -- The `println!` of a handler: only the breakpoint's has one.
  unfoldable pub show : Handler → Printed → Option NotoFontDisplay → Exec (Option NotoFontDisplay)
  show breakpoint_handler p console = Console.print get_raster (simple_text "BREAKPOINT" p) console
  show (exception e) p console = done console
  show double_fault_handler p console = done console
  show machine_check_handler p console = done console
  show timer_interrupt_handler p console = done console
  show keyboard_interrupt_handler p console = done console
  show lapic_error_handler p console = done console
  show spurious_interrupt_handler p console = done console

  -- The console and the serial line after the handler's `println!` and `serial_println!`, in this
  -- order.
  unfoldable pub report :
      {P : Type 0}
      → Uart P
      → Handler
      → Printed
      → Option NotoFontDisplay × Option P
      → Exec (Option NotoFontDisplay × Option P)
  report u h p s = do
    console ← show h p s.0
    serial ← print_if u (serial_text h p) s.1
    done (console, serial)
