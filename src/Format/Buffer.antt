-- ===== src/Format/Buffer.antt =====
-- src/internal.hpp: `buffer_printer`, which prints bytes in lines of 32, in hexadecimal and as text. A
-- text is the list of its code points.
pub mod Reader
pub mod RoundTrip
use wshttp.Prelude.{
  ℕ, zero, suc, ◌+◌, ◌%◌, Bool, true, false, ◌||◌, List, [], ◌∷◌, ◌++◌, codes, length, leb, ltb,
  ◌==◌, nat_eq, if◌then◌else◌,
}

-- What fmt prints a number as, by the format: `{}`, `{:#x}`, `{:04x}` and `{:02x}`.
pub record Fmt : Type 0 where
  pub dec : ℕ → List ℕ
  pub hex_prefixed : ℕ → List ℕ
  pub hex4 : ℕ → List ℕ
  pub hex2 : ℕ → List ℕ

-- The line feed, the space, and the bar "┃" at the ends of the text.
abbrev pub newline : ℕ
newline = 10

abbrev pub space : ℕ
space = 32

abbrev pub bar : ℕ
bar = 0x2503

-- A character of the right column: "∅" for a zero, "·" for what cannot be printed.
unfoldable pub print_char : ℕ → ℕ
print_char c = if c == 0 then 0x2205 else if ltb c 0x20 || ltb 0x7e c then 0xb7 else c

unfoldable pub print_chars : List ℕ → List ℕ
unfolding print_char
print_chars [] = []
print_chars (c ∷ cs) = print_char c ∷ print_chars cs

abbrev pub group : ℕ → List ℕ
group j = if j % 4 == 0 then space ∷ [] else []

-- The first `n` bytes, and those after.
unfoldable pub split_row : (n : ℕ) → List ℕ → List ℕ × List ℕ
split_row zero bytes = ([], bytes)
split_row (suc n) [] = ([], [])
split_row (suc n) (b ∷ bytes) = let (row, rest) = split_row n bytes in (b ∷ row, rest)

module _ (f : Fmt) where
  -- The inner loop from `j` on, with `n` columns to go: `row` is what is left of the line's bytes.
  unfoldable pub print_columns : (n j : ℕ) → (row : List ℕ) → List ℕ
  print_columns zero j row = []
  print_columns (suc n) j [] = group j ++ space ∷ space ∷ print_columns n (j + 1) []
  print_columns (suc n) j (c ∷ row) = group j ++ (f.hex2 c ++ print_columns n (j + 1) row)

  -- One line, from the byte `i` on.
  unfoldable pub print_row : (i : ℕ) → (row : List ℕ) → List ℕ
  unfolding print_columns print_chars
  print_row i row =
      newline
      ∷ (f.hex4 i
          ++ (space
              ∷ (print_columns 32 0 row ++ (space ∷ space ∷ bar ∷ (print_chars row ++ bar ∷ [])))))

  -- The outer loop, in at most `fuel` rounds.
  unfoldable pub print_rows : (fuel i : ℕ) → List ℕ → List ℕ
  unfolding print_row split_row
  print_rows zero i bytes = []
  print_rows (suc fuel) i [] = []
  print_rows (suc fuel) i (b ∷ bytes) =
      let (row, rest) = split_row 32 (b ∷ bytes) in print_row i row ++ print_rows fuel (i + 32) rest

  -- There are no more rounds than bytes.
  unfoldable pub to_string : List ℕ → List ℕ
  unfolding print_rows
  to_string bytes =
      codes "Buffer["
      ++ (f.dec (length bytes)
          ++ (codes "/"
              ++ (f.hex_prefixed (length bytes)
                  ++ (codes " bytes]:" ++ print_rows (length bytes) 0 bytes))))
