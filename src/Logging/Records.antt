-- ===== src/Logging/Records.antt =====
-- What the log of kernel/src/logging.rs leaves on the serial line.
use Prim.Native.String.{String}
use text.Mathlib.Text.{◌==◌}
use mathlib.Core.List.{append-nil, append_assoc}
use rix_os.Base.{
  ℕ, ◌≡◌, refl, sym, ap, ◌∙◌, Bool, true, false, Option, none, some, List, [], ◌∷◌, ◌++◌, leb,
  if◌then◌else◌, Bool-cases, inl, inr, done, chars,
}
use rix_os.Logging.Line.{UartLaws, flatten, write_fmt_lem}
use rix_os.Logging.{
  Uart, Level, error, warn, info, debug, trace, LevelFilter, off, up_to, LogCrate, Logs, max_level,
  serial_port, write_fmt, print, line, log, emit, emit_all, init,
}

-- How severe a level is, 1 for the worst.
abbrev pub rank : Level → ℕ
rank error = 1
rank warn = 2
rank info = 3
rank debug = 4
rank trace = 5

-- The levels that a filter lets through.
abbrev pub allows : LevelFilter → Level → Bool
allows off level = false
allows (up_to worst) level = leb (rank level) (rank worst)

-- The values of LOG_LEVEL, with how many levels each lets through.
abbrev pub thresholds : List (String × ℕ)
thresholds = ("ERROR", 1) ∷ ("WARN", 2) ∷ ("INFO", 3) ∷ ("DEBUG", 4) ∷ ("TRACE", 5) ∷ []

abbrev pub find : String → List (String × ℕ) → ℕ
find s [] = 0
find s ((t, n) ∷ ts) = if s == t then n else find s ts

-- How many levels LOG_LEVEL lets through: none where it is not set or no name of a level.
abbrev pub threshold : Option String → ℕ
threshold none = 0
threshold (some s) = find s thresholds

-- How a line of each level begins: its colour, and its name, five wide.
abbrev pub head : Level → List ℕ
head error = 0x1b ∷ chars "[31m[ERROR] "
head warn = 0x1b ∷ chars "[93m[ WARN] "
head info = 0x1b ∷ chars "[34m[ INFO] "
head debug = 0x1b ∷ chars "[32m[DEBUG] "
head trace = 0x1b ∷ chars "[90m[TRACE] "

-- How every line ends: without colour.
abbrev pub tail : List ℕ
tail = 0x1b ∷ chars "[0m\n"

-- The names of the levels, as the crate log's documentation has them.
abbrev pub level_name : Level → List ℕ
level_name error = chars "ERROR"
level_name warn = chars "WARN"
level_name info = chars "INFO"
level_name debug = chars "DEBUG"
level_name trace = chars "TRACE"

allows-off : (level : Level) → allows off level ≡ leb (rank level) 0
allows-off error = refl
allows-off warn = refl
allows-off info = refl
allows-off debug = refl
allows-off trace = refl

allows-rank :
    (o : Option String) (level : Level)
    → allows (max_level o) level ≡ leb (rank level) (threshold o)
unfolding max_level
allows-rank none level = allows-off level
allows-rank (some s) level = elim (Bool-cases (s == "ERROR")) [
  | inl e ↦ rw e refl
  | inr e ↦ rw e (elim (Bool-cases (s == "WARN")) [
    | inl e ↦ rw e refl
    | inr e ↦ rw e (elim (Bool-cases (s == "INFO")) [
      | inl e ↦ rw e refl
      | inr e ↦ rw e (elim (Bool-cases (s == "DEBUG")) [
        | inl e ↦ rw e refl
        | inr e ↦ rw e (elim (Bool-cases (s == "TRACE")) [
          | inl e ↦ rw e refl
          | inr e ↦ rw e (allows-off level)
        ])
      ])
    ])
  ])
]

-- What the crates' documentation promises: the port sends what it is given, a logger can be set once,
-- and a record is handed on where the maximum level allows it.
pub record LogLaws {L P : Type 0} (k : LogCrate L) (u : Uart P) (fresh : L) : Type 0 where
  pub port : UartLaws u
  pub names : (level : Level) → k.level_text level ≡ level_name level
  pub set_logger_lem : (l : L) × (k.set_logger fresh ≡ some l)
  pub enabled-set_max_level :
      (l l' : L) (f : LevelFilter) (level : Level)
      → k.set_logger l ≡ some l'
      → k.enabled level (k.set_max_level f l') ≡ allows f level

flatten-tail : (args : List (List ℕ)) → flatten (args ++ tail ∷ []) ≡ flatten args ++ tail
flatten-tail [] = refl
flatten-tail (a ∷ args) =
    ap (λ t. a ++ t) (flatten-tail args) ∙ sym (append_assoc a (flatten args) tail)

module _ {L P : Type 0} (k : LogCrate L) (u : Uart P) (fresh : L) (w : LogLaws k u fresh) where
  -- What the serial line carries so far.
  abbrev pub carried : Logs L P → List ℕ
  carried s = w.port.sent (serial_port u s.serial)

  -- The line of a record, where a filter lets it through.
  abbrev passed : LevelFilter → Level → List (List ℕ) → List ℕ
  passed f level args = if allows f level then flatten (line k u level args) else []

  abbrev lines : LevelFilter → List (Level × List (List ℕ)) → List ℕ
  lines f [] = []
  lines f ((level, args) ∷ records) = passed f level args ++ lines f records

  -- The state after `init`, by its filter.
  abbrev Filters : LevelFilter → Logs L P → Type 0
  Filters f s = (level : Level) → k.enabled level s.state ≡ allows f level

  emit_on :
      (level : Level) (args : List (List ℕ)) (s : Logs L P) (p' : P)
      → k.enabled level s.state ≡ true
      → write_fmt u (line k u level args) (serial_port u s.serial) ≡ some p'
      → emit k u level args s ≡ done (record s { serial = some p' })
  unfolding emit log print
  emit_on level args s p' t e = rw (t, e) refl

  emit_off :
      (level : Level) (args : List (List ℕ)) (s : Logs L P)
      → k.enabled level s.state ≡ false
      → emit k u level args s ≡ done s
  unfolding emit
  emit_off level args s t = rw t refl

  -- A record is printed as one line or not at all.
  emit_lem :
      (f : LevelFilter) (level : Level) (args : List (List ℕ)) (s : Logs L P)
      → Filters f s
      → (s' : Logs L P) × (emit k u level args s ≡ done s')
        × Filters f s'
        × (carried s' ≡ carried s ++ passed f level args)
  emit_lem f level args s h = elim (Bool-cases (allows f level)) [
    | inl t ↦
        let (p', e, a) = write_fmt_lem u w.port (line k u level args) (serial_port u s.serial) in
        (record s { serial = some p' }, emit_on level args s p' (h level ∙ t) e, h, rw t a)
    | inr n ↦ (s, emit_off level args s (h level ∙ n), h, rw n (sym (append-nil (carried s))))
  ]

  emit_all-Filters :
      (f : LevelFilter) (records : List (Level × List (List ℕ))) (s : Logs L P)
      → Filters f s
      → (s' : Logs L P) × (emit_all k u records s ≡ done s')
        × (carried s' ≡ carried s ++ lines f records)
  unfolding emit_all
  emit_all-Filters f [] s h = (s, refl, sym (append-nil (carried s)))
  emit_all-Filters f ((level, args) ∷ records) s h =
      let (s', e, h', a) = emit_lem f level args s h in
      let (s'', e', a') = emit_all-Filters f records s' h' in
      (
        s'',
        rw e e',
        a'
            ∙ ap (λ t. t ++ lines f records) a
            ∙ append_assoc (carried s) (passed f level args) (lines f records),
      )

  line_lem :
      (level : Level) (args : List (List ℕ))
      → flatten (line k u level args) ≡ head level ++ (flatten args ++ tail)
  unfolding line
  line_lem error args = rw (w.names error) (ap (λ t. head error ++ t) (flatten-tail args))
  line_lem warn args = rw (w.names warn) (ap (λ t. head warn ++ t) (flatten-tail args))
  line_lem info args = rw (w.names info) (ap (λ t. head info ++ t) (flatten-tail args))
  line_lem debug args = rw (w.names debug) (ap (λ t. head debug ++ t) (flatten-tail args))
  line_lem trace args = rw (w.names trace) (ap (λ t. head trace ++ t) (flatten-tail args))

  -- The text of the records that `n` levels let through, in order.
  abbrev pub texts : (n : ℕ) → List (Level × List (List ℕ)) → List ℕ
  texts n [] = []
  texts n ((level, args) ∷ records) =
      (if leb (rank level) n then head level ++ (flatten args ++ tail) else []) ++ texts n records

  lines-texts :
      (o : Option String) (records : List (Level × List (List ℕ)))
      → lines (max_level o) records ≡ texts (threshold o) records
  lines-texts o [] = refl
  lines-texts o ((level, args) ∷ records) =
      rw (allows-rank o level, line_lem level args, lines-texts o records) refl

  -- After `init` at boot, any sequence of records is logged without a panic, and the serial line
  -- carries, in order, one line for each record whose level LOG_LEVEL lets through and nothing
  -- else: that level and the worse ones where LOG_LEVEL is the name of a level, and none where it
  -- is not set or no such name. A line has the colour and the name of the level, the message, and
  -- the end of the colour.
  pub emit_all_lem :
      (log_level : Option String) (records : List (Level × List (List ℕ)))
      → (s s' : Logs L P) × (init k u log_level (record { state = fresh; serial = none }) ≡ done s)
        × (emit_all k u records s ≡ done s')
        × (carried s' ≡ texts (threshold log_level) records)
  unfolding init
  emit_all_lem log_level records =
      let (l, e) = w.set_logger_lem in
      let s : Logs L P = record {
        state = k.set_max_level (max_level log_level) l;
        serial = none;
      } in
      let (s', e', a) =
        emit_all-Filters (max_level log_level) records s
          (λ level. w.enabled-set_max_level fresh l (max_level log_level) level e) in
      (
        s,
        s',
        rw e refl,
        e',
        a
            ∙ ap (λ t. t ++ lines (max_level log_level) records) (w.port.sent-init 0x3F8)
            ∙ lines-texts log_level records,
      )
