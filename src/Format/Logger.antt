-- ===== src/Format/Logger.antt =====
-- include/wshttp/format.hpp and src/format.cpp: the program's own `Logger`. The loggers of spdlog are
-- reached through a parameter; what a message looks like there is not modelled.
use wshttp.Prelude.{
  ◌≡◌, refl, String, Bool, true, false, Option, none, some, ◌==◌, string_eq, if◌then◌else◌,
}
use wshttp.Prelude.Outcome.{Result, ok, throw, null_access, ◌>>=◌}
use wshttp.Format.{Level, trace, debug, info, warn, err, critical, translate_level}

pub data Stream : Type 0 where
  stderr_color stdout_color : Stream

-- A `spdlog::logger`, as far as the program sets it up.
pub record Spdlog : Type 0 where
  pub stream : Stream
  pub level : Level
  pub has_pattern : Bool

-- `_logger`, with null for `none`.
pub record Logger : Type 0 where
  pub logger : Option Spdlog

-- `spdlog::stderr_color_mt` and `spdlog::stdout_color_mt`
abbrev pub Factory : Type 0
Factory = Stream → Result Spdlog

abbrev pub held : Result Spdlog → Result Logger
held made = made >>= λ g. ok (record { logger = some g })

-- The first test of `_logger_init`; any other name leaves the pointer as it is.
unfoldable pub choose_sink : Factory → String → Logger → Result Logger
choose_sink make s l =
    if s == "stderr"
    then held (make stderr_color)
    else if s == "stdout"
    then held (make stdout_color)
    else ok l

unfoldable pub set_level : String → Logger → Result Logger
unfolding translate_level
set_level level l = elim l.logger [
  | none ↦ translate_level level >>= λ _. throw null_access
  | some g ↦ translate_level level >>= λ v. ok (record { logger = some (record g { level = v }) })
]

unfoldable pub set_formatter : Logger → Result Logger
set_formatter l = elim l.logger [
  | none ↦ throw null_access
  | some g ↦ ok (record { logger = some (record g { has_pattern = true }) })
]

-- `_logger_init`, and so the constructor.
unfoldable pub logger_init : Factory → (s level : String) → Logger → Result Logger
unfolding choose_sink set_formatter set_level
logger_init make s level l = do
  chosen ← choose_sink make s l
  formatted ← set_formatter chosen
  set_level level formatted

-- The static pointers of `make_logger` and `make_sink`: made at the first call, and kept.
unfoldable pub make_once {ℓ} : {A : Type ℓ} → (made : Result A) → Option A → Result A
make_once made none = made
make_once made (some a) = ok a

unfoldable pub make_logger : Factory → Option Logger → Result Logger
unfolding make_once logger_init
make_logger make l = make_once (logger_init make "stderr" "trace" (record { logger = none })) l

-- A message that is handed on, with its level.
pub record Message : Type 0 where
  pub level : Level
  pub text : String

abbrev hand : Level → String → Logger → Result Message
hand level text l = elim l.logger [
  | none ↦ throw null_access
  | some g ↦ ok (record { level = level; text = text })
]

unfoldable pub log_trace : String → Logger → Result Message
log_trace msg l = hand trace msg l

unfoldable pub log_debug : String → Logger → Result Message
log_debug msg l = hand debug msg l

unfoldable pub log_info : String → Logger → Result Message
log_info msg l = hand info msg l

unfoldable pub log_warn : String → Logger → Result Message
log_warn msg l = hand warn msg l

unfoldable pub log_critical : String → Logger → Result Message
log_critical msg l = hand critical msg l

unfoldable pub log_error : String → Logger → Result Message
log_error msg l = hand err msg l

-- A logger that can be used: no message is lost on a null pointer, and each has its own level.
abbrev Works : Logger → Type 0
Works l =
    (msg : String)
    → (log_trace msg l ≡ ok (record { level = trace; text = msg }))
      × (log_debug msg l ≡ ok (record { level = debug; text = msg }))
      × (log_info msg l ≡ ok (record { level = info; text = msg }))
      × (log_warn msg l ≡ ok (record { level = warn; text = msg }))
      × (log_critical msg l ≡ ok (record { level = critical; text = msg }))
      × (log_error msg l ≡ ok (record { level = err; text = msg }))

-- A logger for a stream that is known, with a level that is known, works, prints by the program's
-- pattern and has that level. One for any other stream calls through a null pointer while it is made.
pub logger_init_lem :
    (make : Factory) (g : Spdlog) (level : String) (v : Level)
    → make stderr_color ≡ ok g
    → translate_level level ≡ ok v
    → ((l : Logger) × (logger_init make "stderr" level (record { logger = none }) ≡ ok l)
        × Works l
        × (l.logger ≡ some (record g { level = v; has_pattern = true })))
      × ((s : String)
          → (s == "stderr") ≡ false
          → (s == "stdout") ≡ false
          → logger_init make s level (record { logger = none }) ≡ throw null_access)
unfolding logger_init choose_sink set_formatter set_level log_trace log_debug log_info log_warn
    log_critical log_error
logger_init_lem make g level v made known = (
  (
    record { logger = some (record g { level = v; has_pattern = true }) },
    rw (logger_init, choose_sink, made, known) refl,
    (λ msg. (refl, refl, refl, refl, refl, refl)),
    refl,
  ),
  λ s not_err not_out. rw (logger_init, choose_sink, not_err, not_out) refl,
)
