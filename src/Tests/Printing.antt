-- ===== src/Tests/Printing.antt =====
-- The printer of buffers (internal.hpp), with a printer of numbers that does what fmt documents.
use wshttp.Prelude.{
  ℕ, ◌+◌, ◌-◌, ◌*◌, ◌/◌, ◌%◌, ◌<◌, ◌≡◌, ◌≢◌, refl, List, [], ◌∷◌, ltb, if◌then◌else◌, arith, All,
}
use wshttp.Format.Elapsed.{format, printed, format_lem}
use wshttp.Format.Buffer.{Fmt, to_string, newline, space}
use wshttp.Format.Buffer.Reader.{read}
use wshttp.Format.Buffer.RoundTrip.{IsDocumented, read-to_string}

abbrev digit : ℕ → ℕ
digit n = if ltb n 10 then 48 + n else 87 + n

abbrev value : ℕ → ℕ
value c = if ltb c 58 then c - 48 else c - 87

abbrev unhex : ℕ → ℕ → ℕ
unhex x y = value x * 16 + value y

-- Sizes and offsets are not read, so any digits will do for them here.
abbrev fmt : Fmt
fmt = record {
  dec = λ n. digit (n % 10) ∷ [];
  hex_prefixed = λ n. 48 ∷ 120 ∷ digit (n % 16) ∷ [];
  hex4 = λ n. digit (n / 16 % 16) ∷ digit (n % 16) ∷ [];
  hex2 = λ b. digit (b / 16) ∷ digit (b % 16) ∷ [];
}

digit_apart : (n : ℕ) → (digit n ≢ space) × (digit n ≢ newline)
digit_apart n = (λ e. ground (arith, e), λ e. ground (arith, e))

value-digit : (n : ℕ) → n < 16 → value (digit n) ≡ n
value-digit n h = ground arith

unhex_lem : (b : ℕ) → b < 256 → unhex (digit (b / 16)) (digit (b % 16)) ≡ b
unhex_lem b h =
    omega (arith, value-digit (b / 16) (omega arith), value-digit (b % 16) (omega arith))

fmt-IsDocumented : IsDocumented fmt unhex
fmt-IsDocumented = record {
  digits = λ b h. (
    digit (b / 16),
    digit (b % 16),
    refl,
    (digit_apart (b / 16)).0,
    (digit_apart (b / 16)).1,
    (digit_apart (b % 16)).1,
    unhex_lem b h,
  );
  offset = λ n. (
    ((digit_apart (n / 16 % 16)).0, ((digit_apart (n % 16)).0, tt)),
    ((digit_apart (n / 16 % 16)).1, ((digit_apart (n % 16)).1, tt)),
  );
  sizes = λ n. (
    ((digit_apart (n % 10)).1, tt),
    (λ e. ground (arith, e), (λ e. ground (arith, e), ((digit_apart (n % 16)).1, tt))),
  );
}

abbrev bytes : List ℕ
bytes = 72 ∷ 0 ∷ 10 ∷ 32 ∷ 255 ∷ []

bytes_small : All (λ b. b < 256) bytes
bytes_small = (omega arith, (omega arith, (omega arith, (omega arith, (omega arith, tt)))))

read-to_string_example : read unhex (to_string fmt bytes) ≡ 72 ∷ 0 ∷ 10 ∷ 32 ∷ 255 ∷ []
read-to_string_example = read-to_string fmt unhex fmt-IsDocumented bytes bytes_small

-- An hour, two minutes, three seconds and four milliseconds.
format_lem_example :
    (printed (format 3723004000000) ≡ 3723004000000 / 1000000)
    × ((format 3723004000000).minutes < 60)
    × ((format 3723004000000).seconds < 60)
    × ((format 3723004000000).milliseconds < 1000)
format_lem_example = format_lem 3723004000000
