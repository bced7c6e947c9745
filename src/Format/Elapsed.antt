-- ===== src/Format/Elapsed.antt =====
-- src/format.cpp: `startup_elapsed_flag`.
use wshttp.Prelude.{ℕ, ◌+◌, ◌*◌, ◌/◌, ◌%◌, ◌<◌, ◌≡◌, if◌then◌else◌, leb, arith}

-- The three formats, by the largest unit that they print.
pub data ElapsedFormat : Type 0 where
  format_hours format_minutes format_seconds : ElapsedFormat

-- The arguments of `fmt::format`, in order.
pub record Elapsed : Type 0 where
  pub chosen : ElapsedFormat
  pub hours : ℕ
  pub minutes : ℕ
  pub seconds : ℕ
  pub milliseconds : ℕ

-- `elapsed` is in nanoseconds, the ticks of `steady_clock`; a `duration_cast` rounds down.
unfoldable pub format : ℕ → Elapsed
format elapsed = record {
  chosen =
      if leb 3600000000000 elapsed
      then format_hours
      else if leb 60000000000 elapsed
      then format_minutes
      else format_seconds;
  hours = elapsed / 3600000000000;
  minutes = elapsed / 60000000000 % 60;
  seconds = elapsed / 1000000000 % 60;
  milliseconds = elapsed / 1000000 % 1000;
}

-- The milliseconds that a reader of the printed fields reckons.
abbrev pub printed : Elapsed → ℕ
printed t = elim t.chosen [
  | format_hours ↦ ((t.hours * 60 + t.minutes) * 60 + t.seconds) * 1000 + t.milliseconds
  | format_minutes ↦ (t.minutes * 60 + t.seconds) * 1000 + t.milliseconds
  | format_seconds ↦ t.seconds * 1000 + t.milliseconds
]

-- Whichever format is chosen, the fields that it prints add up to the elapsed time, in whole
-- milliseconds, and minutes and seconds stay below 60 and milliseconds below 1000.
pub format_lem :
    (elapsed : ℕ)
    → (printed (format elapsed) ≡ elapsed / 1000000)
      × ((format elapsed).minutes < 60)
      × ((format elapsed).seconds < 60)
      × ((format elapsed).milliseconds < 1000)
unfolding format
format_lem elapsed = ground arith
