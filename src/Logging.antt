-- ===== src/Logging.antt =====
-- kernel/src/logging.rs and kernel/src/serial.rs: log records on the serial line.
pub mod Line
pub mod Records
pub mod Colors
use Prim.Native.String.{String}
use text.Mathlib.Text.{◌==◌}
use rix_os.Base.{
  ℕ, ◌+◌, ◌-◌, ◌/◌, ◌%◌, Bool, true, false, Option, none, some, List, [], ◌∷◌, ◌++◌, leb,
  if◌then◌else◌, length, replicate, Exec, done, ◌>>=◌, unwrap,
}

-- `SerialPort` of the crate uart_16550; `none` stands for an error of `write_str`.
pub record Uart (P : Type 0) : Type 0 where
  pub new : (base : ℕ) → P
  pub init : P → P
  pub write_str : List ℕ → P → Option P

-- `Level` of the crate log.
pub data Level : Type 0 where
  error warn info debug trace : Level

-- `LevelFilter` of the crate log: nothing, or all from Error on up to a level.
pub data LevelFilter : Type 0 where
  off : LevelFilter
  up_to : Level → LevelFilter

-- What the module takes of the crate log, over the state `L` that it keeps. `set_logger` fails where
-- there is a logger. `enabled` is the test of `error!` and its like, and of a logger to be there;
-- `level_text` is what a level prints.
pub record LogCrate (L : Type 0) : Type 0 where
  pub set_logger : L → Option L
  pub set_max_level : LevelFilter → L → L
  pub enabled : Level → L → Bool
  pub level_text : Level → List ℕ

-- The crate's state, and the static SERIAL, nothing before its first use.
pub record Logs (L P : Type 0) : Type 0 where
  pub state : L
  pub serial : Option P

-- `color`
abbrev pub color : Level → ℕ
color error = 31
color warn = 93
color info = 34
color debug = 32
color trace = 90

-- The argument of `set_max_level`, for the environment variable `LOG_LEVEL` of the build.
unfoldable pub max_level : Option String → LevelFilter
max_level none = off
max_level (some s) =
    if s == "ERROR"
    then up_to error
    else if s == "WARN"
    then up_to warn
    else if s == "INFO"
    then up_to info
    else if s == "DEBUG"
    then up_to debug
    else if s == "TRACE"
    then up_to trace
    else off

-- A number below 100 as `{}` prints it.
abbrev pub decimal : ℕ → List ℕ
decimal n = if leb 10 n then (48 + n / 10) ∷ (48 + n % 10) ∷ [] else (48 + n) ∷ []

-- `{:>5}`
abbrev pub pad_left : List ℕ → List ℕ
pad_left s = replicate (5 - length s) 0x20 ++ s

-- `?` on a `fmt::Result`
abbrev pub or_error : {P : Type 0} → Option P → (P → Option P) → Option P
or_error none f = none
or_error (some p) f = f p

-- `SERIAL` at its first use.
abbrev pub serial_port : {P : Type 0} → Uart P → Option P → P
serial_port u none = u.init (u.new 0x3F8)
serial_port u (some p) = p

module _ {P : Type 0} (u : Uart P) where
  -- `SerialPort::write_fmt`, piece by piece.
  unfoldable pub write_fmt : (pieces : List (List ℕ)) → P → Option P
  write_fmt [] p = some p
  write_fmt (s ∷ pieces) p = or_error (u.write_str s p) λ p. write_fmt pieces p

  -- `_print`
  unfoldable pub print : (pieces : List (List ℕ)) → Option P → Exec (Option P)
  print pieces serial = do p ← unwrap (write_fmt pieces (serial_port u serial)); done (some p)

module _ {L P : Type 0} (k : LogCrate L) (u : Uart P) where
  -- The pieces of the line that `SimpleLogger::log` prints, `args` being those of the message.
  unfoldable pub line : Level → (args : List (List ℕ)) → List (List ℕ)
  line level args =
      (0x1b ∷ 0x5b ∷ [])
      ∷ decimal (color level)
      ∷ (0x6d ∷ 0x5b ∷ [])
      ∷ pad_left (k.level_text level)
      ∷ (0x5d ∷ 0x20 ∷ [])
      ∷ (args ++ (0x1b ∷ 0x5b ∷ 0x30 ∷ 0x6d ∷ 0x0a ∷ []) ∷ [])

  -- `SimpleLogger::log`; its `enabled` is true.
  unfoldable pub log : Level → (args : List (List ℕ)) → Option P → Exec (Option P)
  log level args serial = print u (line level args) serial

  -- `error!`, `warn!`, `info!`, `debug!` and `trace!`: the crate's macro hands the record on where
  -- it is enabled.
  unfoldable pub emit : Level → (args : List (List ℕ)) → Logs L P → Exec (Logs L P)
  emit level args s =
      if k.enabled level s.state
      then (do serial ← log level args s.serial; done (record s { serial = serial }))
      else done s

  -- A sequence of records.
  unfoldable pub emit_all : List (Level × List (List ℕ)) → Logs L P → Exec (Logs L P)
  emit_all [] s = done s
  emit_all ((level, args) ∷ records) s = do s ← emit level args s; emit_all records s

  -- `init`
  unfoldable pub init : (log_level : Option String) → Logs L P → Exec (Logs L P)
  init log_level s = do
    l ← unwrap (k.set_logger s.state)
    done (record s { state = k.set_max_level (max_level log_level) l })
