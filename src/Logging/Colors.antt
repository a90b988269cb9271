-- ===== src/Logging/Colors.antt =====
-- A log line without its colours: the escape sequences of kernel/src/logging.rs.
use rix_os.Base.{
  ℕ, ◌≡◌, refl, sym, ap, ◌∙◌, ◌≢◌, Bool, true, false, List, [], ◌∷◌, ◌++◌, arith, ◌==◌,
  if◌then◌else◌, All, All-append, length, replicate, ◌-◌, zero, suc,
}
use mathlib.Core.List.{append_assoc}
use rix_os.Logging.{
  Level, error, warn, info, debug, trace, LogCrate, Uart, color, decimal, pad_left, line,
}
use rix_os.Logging.Line.{flatten}

-- What a terminal shows: the text without the sequences that begin with ESC and end at `m`.
abbrev pub shown : (in_sequence : Bool) → List ℕ → List ℕ
shown in_sequence [] = []
shown false (c ∷ s) = if c == 0x1b then shown true s else c ∷ shown false s
shown true (c ∷ s) = if c == 0x6d then shown false s else shown true s

-- Text without escape sequences.
abbrev pub IsPlain : List ℕ → Type 0
IsPlain = All (λ c. c ≢ 0x1b)

shown-plain : (s t : List ℕ) → IsPlain s → shown false (s ++ t) ≡ s ++ shown false t
shown-plain [] t p = refl
shown-plain (c ∷ s) t p = ground (arith, shown-plain s t p.1)

spaces-IsPlain : (n : ℕ) → IsPlain (replicate n 0x20)
spaces-IsPlain zero = tt
spaces-IsPlain (suc n) = (omega arith, spaces-IsPlain n)

pad_left-IsPlain : (s : List ℕ) → IsPlain s → IsPlain (pad_left s)
pad_left-IsPlain s p =
    All-append (λ c. c ≢ 0x1b) (replicate (5 - length s) 0x20) s (spaces-IsPlain (5 - length s)) p

flatten-append : (ss ts : List (List ℕ)) → flatten (ss ++ ts) ≡ flatten ss ++ flatten ts
flatten-append [] ts = refl
flatten-append (s ∷ ss) ts =
    ap (λ t. s ++ t) (flatten-append ss ts) ∙ sym (append_assoc s (flatten ss) (flatten ts))

-- The sequence that sets the colour, up to the bracket.
shown-color :
    (level : Level) (s : List ℕ)
    → shown false (0x1b ∷ 0x5b ∷ (decimal (color level) ++ 0x6d ∷ 0x5b ∷ s)) ≡ 0x5b ∷ shown false s
shown-color error s = refl
shown-color warn s = refl
shown-color info s = refl
shown-color debug s = refl
shown-color trace s = refl

-- Where neither the level's name nor the message has an escape character, a terminal shows of a log
-- line, whatever its level, `[`, the name on five places, `] `, the message and the line's end: both
-- colour sequences are complete.
pub shown-line :
    {L P : Type 0} (k : LogCrate L) (u : Uart P) (level : Level) (args : List (List ℕ))
    → IsPlain (k.level_text level)
    → IsPlain (flatten args)
    → shown false (flatten (line k u level args))
      ≡ 0x5b ∷ (pad_left (k.level_text level) ++ 0x5d ∷ 0x20 ∷ (flatten args ++ 0x0a ∷ []))
unfolding line
shown-line k u level args p q =
    shown-color level _
    ∙ ap (λ t. 0x5b ∷ t)
        (shown-plain (pad_left (k.level_text level)) _ (pad_left-IsPlain (k.level_text level) p)
          ∙ ap (λ t. pad_left (k.level_text level) ++ 0x5d ∷ 0x20 ∷ t)
              (ap (shown false) (flatten-append args ((0x1b ∷ 0x5b ∷ 0x30 ∷ 0x6d ∷ 0x0a ∷ []) ∷ []))
                ∙ shown-plain (flatten args) (0x1b ∷ 0x5b ∷ 0x30 ∷ 0x6d ∷ 0x0a ∷ []) q))
