-- ===== src/Logger.antt =====
-- framework/src/Logger/logger.c and framework/src/dev/mode.c: which messages are printed, and which
-- end the program.
use cweb.Base.{ℕ, ◌≡◌, ◌↔◌, Bool, true, false, not, ◌||◌, arith, ltb, ◌==◌, if◌then◌else◌}

pub data Mode : Type 0 where
  prod dev : Mode

pub data LogLevel : Type 0 where
  debug info warning error fatal : LogLevel

-- The enumeration's numbers.
abbrev level_number : LogLevel → ℕ
level_number debug = 0
level_number info = 1
level_number warning = 2
level_number error = 3
level_number fatal = 4

pub record LogContext : Type 0 where
  pub mode : Mode
  pub level : LogLevel
  pub quiet : Bool

abbrev pub initial_context : LogContext
initial_context = record { mode = prod; level = debug; quiet = false }

set_level : LogLevel → LogContext → LogContext
set_level l c = record c { level = l }

set_quiet : Bool → LogContext → LogContext
set_quiet q c = record c { quiet = q }

set_mode : Mode → LogContext → LogContext
set_mode m c = record c { mode = m }

pub data LogOutcome : Type 0 where
  suppressed printed exits : LogOutcome

abbrev pub is_dev : Mode → Bool
is_dev prod = false
is_dev dev = true

pub log_message : LogContext → LogLevel → LogOutcome
log_message c level =
    if not (is_dev c.mode)
    then suppressed
    else if ltb (level_number level) (level_number c.level) || c.quiet
    then suppressed
    else if level_number level == level_number fatal
    then exits
    else printed

-- A message ends the program exactly if it is fatal, the mode is `dev` and the logger is not quiet:
-- no minimum level holds a fatal message back, and in production none ends the program.
log_message_exits :
    (c : LogContext) (level : LogLevel)
    → (log_message c level ≡ exits) ↔ ((level ≡ fatal) × (c.mode ≡ dev) × (c.quiet ≡ false))
unfolding log_message
log_message_exits c level = ground arith
