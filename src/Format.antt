-- ===== src/Format.antt =====
-- src/format.cpp: the levels of the logger, and the time that it prints.
pub mod Elapsed
pub mod Logger
pub mod Buffer
use wshttp.Prelude.{
  ℕ, ◌/◌, ◌%◌, ◌≡◌, refl, ◌↔◌, ◌∙◌, sym, String, Bool, true, false, ◌==◌, string_eq, eq_iff,
  if◌then◌else◌, leb, Bool-cases, inl, inr, arith,
}
use wshttp.Prelude.Outcome.{Result, ok, throw, invalid_argument}

-- `spdlog::level::level_enum`
pub data Level : Type 0 where
  trace debug info warn err critical off : Level

unfoldable pub translate_level : String → Result Level
translate_level level =
    if level == "trace"
    then ok trace
    else if level == "debug"
    then ok debug
    else if level == "info"
    then ok info
    else if level == "warn"
    then ok warn
    else if level == "err"
    then ok err
    else if level == "critical"
    then ok critical
    else if level == "off"
    then ok off
    else throw invalid_argument

-- The name that the error message gives for each level.
abbrev pub level_name : Level → String
level_name trace = "trace"
level_name debug = "debug"
level_name info = "info"
level_name warn = "warn"
level_name err = "err"
level_name critical = "critical"
level_name off = "off"

translate_level_name : (l : Level) → translate_level (level_name l) ≡ ok l
unfolding translate_level
translate_level_name trace = refl
translate_level_name debug = refl
translate_level_name info = refl
translate_level_name warn = refl
translate_level_name err = refl
translate_level_name critical = refl
translate_level_name off = refl

-- A text is read as a level exactly when it is that level's name.
pub translate_level_iff : (s : String) (l : Level) → (translate_level s ≡ ok l) ↔ (s ≡ level_name l)
unfolding translate_level
translate_level_iff s l = (
  λ e. ground (
    arith,
    eq_iff s "trace",
    eq_iff s "debug",
    eq_iff s "info",
    eq_iff s "warn",
    eq_iff s "err",
    eq_iff s "critical",
    eq_iff s "off",
  ),
  λ e. rw e (translate_level_name l),
)
