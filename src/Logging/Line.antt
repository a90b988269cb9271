-- ===== src/Logging/Line.antt =====
-- Text on the serial line: `_print` of kernel/src/serial.rs.
use mathlib.Core.List.{append-nil, append_assoc}
use rix_os.Base.{ℕ, ◌≡◌, refl, sym, ap, ◌∙◌, Option, some, List, [], ◌∷◌, ◌++◌, done}
use rix_os.Logging.{Uart, serial_port, write_fmt, print}

-- What the documentation of uart_16550 promises: the port sends the bytes it is given, in order.
pub record UartLaws {P : Type 0} (u : Uart P) : Type 0 where
  pub sent : P → List ℕ
  pub sent-init : (base : ℕ) → sent (u.init (u.new base)) ≡ []
  pub write_str_lem :
      (s : List ℕ) (p : P) → (p' : P) × (u.write_str s p ≡ some p') × (sent p' ≡ sent p ++ s)

abbrev pub flatten : List (List ℕ) → List ℕ
flatten [] = []
flatten (s ∷ ss) = s ++ flatten ss

module _ {P : Type 0} (u : Uart P) (w : UartLaws u) where
  pub write_fmt_lem :
      (pieces : List (List ℕ)) (p : P)
      → (p' : P) × (write_fmt u pieces p ≡ some p') × (w.sent p' ≡ w.sent p ++ flatten pieces)
  unfolding write_fmt
  write_fmt_lem [] p = (p, refl, sym (append-nil (w.sent p)))
  write_fmt_lem (s ∷ pieces) p =
      let (p', e, a) = w.write_str_lem s p in
      let (p'', e', a') = write_fmt_lem pieces p' in
      (
        p'',
        rw e e',
        a' ∙ ap (λ t. t ++ flatten pieces) a ∙ append_assoc (w.sent p) s (flatten pieces),
      )

  pub print_lem :
      (pieces : List (List ℕ)) (serial : Option P)
      → (p : P) × (print u pieces serial ≡ done (some p))
        × (w.sent p ≡ w.sent (serial_port u serial) ++ flatten pieces)
  unfolding print
  print_lem pieces serial =
      let (p, e, a) = write_fmt_lem pieces (serial_port u serial) in (p, rw e refl, a)
