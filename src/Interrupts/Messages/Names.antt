-- ===== src/Interrupts/Messages/Names.antt =====
-- The names under which exceptions are reported, against the processor's vectors.
use Prim.Native.String.{String}
use rix_os.Base.{
  ℕ, ◌≡◌, refl, sym, inl, inr, Option, none, some, List, [], ◌∷◌, ◌++◌, ◌==◌, if◌then◌else◌,
  Bool-cases, done, chars, arith, All, subst, some_eq, ==_iff, ap₂,
}
use rix_os.Logging.{Uart, serial_port}
use rix_os.Logging.Line.{UartLaws, flatten, print_lem}
use rix_os.Interrupts.{Entry, idt, lookup}
use rix_os.Interrupts.Messages.{Printed, serial_text, show, report}
use rix_os.Console.{Raster, NotoFontDisplay}

-- The exceptions of the architecture that the kernel handles, by their vectors, but for the
-- breakpoint, which goes to the console first.
abbrev pub exceptions : List (ℕ × String)
exceptions =
    (0, "DIVIDE BY ZERO")
    ∷ (1, "DEBUG")
    ∷ (2, "NON MASKABLE INTERRUPT")
    ∷ (4, "OVERFLOW")
    ∷ (5, "BOUND RANGE EXCEEDED")
    ∷ (6, "INVALID OPCODE")
    ∷ (7, "DEVICE NOT AVAILABLE")
    ∷ (8, "DOUBLE FAULT")
    ∷ (10, "INVALID TSS")
    ∷ (11, "SEGMENT NOT PRESENT")
    ∷ (12, "STACK SEGMENT FAULT")
    ∷ (13, "GENERAL PROTECTION FAULT")
    ∷ (14, "PAGE FAULT")
    ∷ (16, "X87 FLOATING POINT")
    ∷ (17, "ALIGNMENT CHECK")
    ∷ (18, "MACHINE CHECK")
    ∷ (19, "SIMD FLOATING POINT")
    ∷ (20, "VIRTUALIZATION")
    ∷ (30, "SECURITY EXCEPTION")
    ∷ []

abbrev pub name_of : ℕ → List (ℕ × String) → Option String
name_of v [] = none
name_of v ((w, n) ∷ ns) = if v == w then some n else name_of v ns

-- The handler at a vector leaves the console and prints a text that begins with the name.
abbrev pub Announces : ℕ × String → Type 0
Announces (v, n) =
    (e : Entry) × (lookup v idt ≡ some e)
    × ((p : Printed)
        → (rest : List (List ℕ)) × (serial_text e.handler p
            ≡ some (chars "EXCEPTION: " ∷ chars n ∷ rest)))
    × ((get_raster : (char font_weight raster_height : ℕ) → Option Raster) (p : Printed)
          (console : Option NotoFontDisplay)
        → show get_raster e.handler p console ≡ done console)

announced : All Announces exceptions
unfolding lookup show
announced = (
  (_, refl, (λ p. (_, refl)), λ r p c. refl),
  (
    (_, refl, (λ p. (_, refl)), λ r p c. refl),
    (
      (_, refl, (λ p. (_, refl)), λ r p c. refl),
      (
        (_, refl, (λ p. (_, refl)), λ r p c. refl),
        (
          (_, refl, (λ p. (_, refl)), λ r p c. refl),
          (
            (_, refl, (λ p. (_, refl)), λ r p c. refl),
            (
              (_, refl, (λ p. (_, refl)), λ r p c. refl),
              (
                (_, refl, (λ p. (_, refl)), λ r p c. refl),
                (
                  (_, refl, (λ p. (_, refl)), λ r p c. refl),
                  (
                    (_, refl, (λ p. (_, refl)), λ r p c. refl),
                    (
                      (_, refl, (λ p. (_, refl)), λ r p c. refl),
                      (
                        (_, refl, (λ p. (_, refl)), λ r p c. refl),
                        (
                          (_, refl, (λ p. (_, refl)), λ r p c. refl),
                          (
                            (_, refl, (λ p. (_, refl)), λ r p c. refl),
                            (
                              (_, refl, (λ p. (_, refl)), λ r p c. refl),
                              (
                                (_, refl, (λ p. (_, refl)), λ r p c. refl),
                                (
                                  (_, refl, (λ p. (_, refl)), λ r p c. refl),
                                  (
                                    (_, refl, (λ p. (_, refl)), λ r p c. refl),
                                    ((_, refl, (λ p. (_, refl)), λ r p c. refl), tt),
                                  ),
                                ),
                              ),
                            ),
                          ),
                        ),
                      ),
                    ),
                  ),
                ),
              ),
            ),
          ),
        ),
      ),
    ),
  ),
)

named :
    (v : ℕ) (n : String) (ns : List (ℕ × String))
    → All Announces ns
    → name_of v ns ≡ some n
    → Announces (v, n)
named v n [] a h = cc
named v n ((w, m) ∷ ns) a h = elim (Bool-cases (v == w)) [
  | inl t ↦
      let same : w ≡ v = sym ((==_iff v w).0 t) in
      let same_name : m ≡ n = some_eq (ground (arith, t)) in
      subst Announces (ap₂ (λ i j. (i, j)) same same_name) a.0
  | inr f ↦ named v n ns a.1 (ground arith)
]

-- Each exception of the architecture that the kernel knows, the breakpoint aside, reports itself:
-- the table has a handler for its vector, whose line on a working serial port begins with the
-- exception's name; it does not panic and leaves the console alone.
pub report_lem :
    {P : Type 0} (u : Uart P) (w : UartLaws u)
    (get_raster : (char font_weight raster_height : ℕ) → Option Raster) (v : ℕ) (n : String)
    (p : Printed) (console : Option NotoFontDisplay) (serial : Option P)
    → name_of v exceptions ≡ some n
    → (e : Entry) × (q : P) × (rest : List ℕ) × (lookup v idt ≡ some e)
      × (report get_raster u e.handler p (console, serial) ≡ done (console, some q))
      × (w.sent q ≡ w.sent (serial_port u serial) ++ (chars "EXCEPTION: " ++ (chars n ++ rest)))
unfolding report
report_lem u w get_raster v n p console serial h =
    let (e, at, text, quiet) = named v n exceptions announced h in
    let (rest, same) = text p in
    let (q, printed, sent) = print_lem u w (chars "EXCEPTION: " ∷ chars n ∷ rest) serial in
    (e, q, flatten rest, at, rw (quiet get_raster p console, same, printed) refl, sent)
