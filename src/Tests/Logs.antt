-- ===== src/Tests/Logs.antt =====
-- A logger that can be set once, and a serial line that keeps what is sent.
use rix_os.Base.{
  ℕ, ◌≡◌, refl, ap, sym, Bool, true, false, ◌&&◌, Option, none, some, List, [], ◌∷◌, ◌++◌, done,
  some_eq,
}
use rix_os.Logging as Logging
use rix_os.Logging.{
  Uart, Level, error, warn, info, debug, trace, LevelFilter, off, LogCrate, Logs, max_level, line,
  pad_left, emit_all,
}
use rix_os.Logging.Records.{allows, LogLaws, carried, texts, threshold, level_name, emit_all_lem}
use rix_os.Logging.Line.{UartLaws}

abbrev pub uart : Uart (List ℕ)
uart = record { new = λ base. []; init = λ p. p; write_str = λ s p. some (p ++ s) }

abbrev pub uart_laws : UartLaws uart
uart_laws = record {
  sent = λ p. p;
  sent-init = λ base. refl;
  write_str_lem = λ s p. (p ++ s, refl, refl);
}

-- Whether there is a logger, and the maximum level.
abbrev pub LogState : Type 0
LogState = Bool × LevelFilter

abbrev pub level_text : Level → List ℕ
level_text error = 0x45 ∷ 0x52 ∷ 0x52 ∷ 0x4f ∷ 0x52 ∷ []
level_text warn = 0x57 ∷ 0x41 ∷ 0x52 ∷ 0x4e ∷ []
level_text info = 0x49 ∷ 0x4e ∷ 0x46 ∷ 0x4f ∷ []
level_text debug = 0x44 ∷ 0x45 ∷ 0x42 ∷ 0x55 ∷ 0x47 ∷ []
level_text trace = 0x54 ∷ 0x52 ∷ 0x41 ∷ 0x43 ∷ 0x45 ∷ []

abbrev pub set_logger : LogState → Option LogState
set_logger (true, f) = none
set_logger (false, f) = some (true, f)

abbrev pub log_crate : LogCrate LogState
log_crate = record {
  set_logger = set_logger;
  set_max_level = λ f l. (l.0, f);
  enabled = λ level l. l.0 && allows l.1 level;
  level_text = level_text;
}

pub set_logger-enabled :
    (l l' : LogState) (f : LevelFilter) (level : Level)
    → set_logger l ≡ some l'
    → (l'.0 && allows f level) ≡ allows f level
set_logger-enabled (true, g) l' f level e = cc
set_logger-enabled (false, g) l' f level e =
    ap (λ (q : LogState). q.0 && allows f level) (sym (some_eq e))

pub level_text-names : (level : Level) → level_text level ≡ level_name level
level_text-names error = refl
level_text-names warn = refl
level_text-names info = refl
level_text-names debug = refl
level_text-names trace = refl

abbrev pub no_logger : LogState
no_logger = (false, off)

abbrev pub log_laws : LogLaws log_crate uart no_logger
log_laws = record {
  port = uart_laws;
  names = level_text-names;
  set_logger_lem = ((true, off), refl);
  enabled-set_max_level = set_logger-enabled;
}

-- With LOG_LEVEL=WARN, "a" as an error is printed and "b" as an information is not.
abbrev records : List (Level × List (List ℕ))
records = (error, (0x61 ∷ []) ∷ []) ∷ (info, (0x62 ∷ []) ∷ []) ∷ []

emit_all_example :
    (s s' : Logs LogState (List ℕ)) × (Logging.init log_crate uart
        (some "WARN")
        (record { state = no_logger; serial = none })
      ≡ done s)
    × (emit_all log_crate uart records s ≡ done s')
    × (carried log_crate uart no_logger log_laws s'
        ≡ texts log_crate uart no_logger log_laws (threshold (some "WARN")) records)
emit_all_example = emit_all_lem log_crate uart no_logger log_laws (some "WARN") records

-- What is printed of these.
texts-records :
    texts log_crate uart no_logger log_laws (threshold (some "WARN")) records
    ≡ 0x1b ∷ 0x5b ∷ 0x33 ∷ 0x31 ∷ 0x6d ∷ 0x5b ∷ 0x45 ∷ 0x52 ∷ 0x52 ∷ 0x4f ∷ 0x52 ∷ 0x5d ∷ 0x20
      ∷ 0x61 ∷ 0x1b ∷ 0x5b ∷ 0x30 ∷ 0x6d ∷ 0x0a ∷ []
texts-records = refl
