-- ===== src/Format/Buffer/RoundTrip.antt =====
-- src/internal.hpp: the bytes of a buffer are read back from what `buffer_printer` prints.
use wshttp.Prelude.{
  ℕ, zero, suc, ◌+◌, ◌<◌, ◌≤◌, ◌≡◌, ◌≢◌, refl, ap, ◌∙◌, inl, inr, List, [], ◌∷◌, ◌++◌, codes,
  length, ◌==◌, nat_eq, ◌%◌, arith, All, All-append, length-append, Bool-cases,
}
use wshttp.Format.Buffer.{
  Fmt, newline, space, bar, group, print_char, print_chars, print_columns, print_row, split_row,
  print_rows, to_string,
}
use wshttp.Format.Buffer.Reader.{
  lines, after_space, skip, next_line, read_cells, read_lines, read, OnOneLine, lines-append,
  after_space-append, read_cells_blank, read_cells_digits, Ends, Ends-append, no_lines,
  lines-newline,
}

-- What the texts that fmt prints must be for this: two digits for a byte, which `unhex` reads; an
-- offset without a space; and no line feed.
pub record IsDocumented (f : Fmt) (unhex : ℕ → ℕ → ℕ) : Type 0 where
  pub digits :
      (b : ℕ)
      → b < 256
      → (x : ℕ) × (y : ℕ) × (f.hex2 b ≡ x ∷ y ∷ [])
        × (x ≢ space)
        × (x ≢ newline)
        × (y ≢ newline)
        × (unhex x y ≡ b)
  pub offset : (n : ℕ) → All (λ c. c ≢ space) (f.hex4 n) × All (λ c. c ≢ newline) (f.hex4 n)
  pub sizes : (n : ℕ) → All (λ c. c ≢ newline) (f.dec n) × All (λ c. c ≢ newline) (f.hex_prefixed n)

print_chars-OnOneLine : (row : List ℕ) → OnOneLine (print_chars row)
unfolding print_chars print_char
print_chars-OnOneLine [] = tt
print_chars-OnOneLine (c ∷ row) = (λ e. ground (arith, e), print_chars-OnOneLine row)

split_row_lem :
    (n : ℕ) (bytes : List ℕ)
    → ((split_row n bytes).0 ++ (split_row n bytes).1 ≡ bytes) × (length (split_row n bytes).0 ≤ n)
unfolding split_row
split_row_lem zero bytes = (refl, omega arith)
split_row_lem (suc n) [] = (refl, omega arith)
split_row_lem (suc n) (b ∷ bytes) =
    (ap (◌∷◌ b) (split_row_lem n bytes).0, omega (arith, (split_row_lem n bytes).1))

split_row-All :
    (P : ℕ → Type 0) (n : ℕ) (bytes : List ℕ)
    → All P bytes
    → All P (split_row n bytes).0 × All P (split_row n bytes).1
unfolding split_row
split_row-All P zero bytes h = (tt, h)
split_row-All P (suc n) [] h = (tt, tt)
split_row-All P (suc n) (b ∷ bytes) h =
    ((h.0, (split_row-All P n bytes h.1).0), (split_row-All P n bytes h.1).1)

-- A row takes at least one byte.
split_row_rest :
    (n : ℕ) (b : ℕ) (bytes : List ℕ) → length (split_row (suc n) (b ∷ bytes)).1 ≤ length bytes
unfolding split_row
split_row_rest n b bytes = omega (
  arith,
  ap length (split_row_lem n bytes).0,
  length-append (split_row n bytes).0 (split_row n bytes).1,
)

space_apart : space ≢ newline
space_apart e = ground (arith, e)

bar_apart : bar ≢ newline
bar_apart e = ground (arith, e)

group-OnOneLine : (j : ℕ) → OnOneLine (group j)
group-OnOneLine j = elim (Bool-cases (j % 4 == 0)) [
  | inl starts ↦ rw starts (space_apart, tt)
  | inr inside ↦ rw inside tt
]

module _ (f : Fmt) (unhex : ℕ → ℕ → ℕ) (doc : IsDocumented f unhex) where
  read_cells-print_columns :
      (n j : ℕ) (row after : List ℕ)
      → length row ≤ n
      → All (λ b. b < 256) row
      → read_cells unhex n j (print_columns f n j row ++ after) ≡ row
  unfolding read_cells print_columns
  read_cells-print_columns zero j [] after h bytes = refl
  read_cells-print_columns zero j (c ∷ row) after h bytes = absurd (omega arith)
  read_cells-print_columns (suc n) j [] after h bytes =
      read_cells_blank unhex n j space (print_columns f n (j + 1) []) after
  read_cells-print_columns (suc n) j (c ∷ row) after h (small, smalls) =
      let (x, y, shown, digit, _, _, value) = doc.digits c small in
      let columns : List ℕ = print_columns f n (j + 1) row in
      ap (λ t. read_cells unhex (suc n) j ((group j ++ (t ++ columns)) ++ after)) shown
      ∙ read_cells_digits unhex n j x y columns after digit
      ∙ ap (λ b. b ∷ read_cells unhex n (j + 1) (columns ++ after)) value
      ∙ ap (◌∷◌ c) (read_cells-print_columns n (j + 1) row after (omega arith) smalls)

  -- The lines that the rows are.
  abbrev row_lines : (fuel i : ℕ) → List ℕ → List (List ℕ)
  row_lines zero i bytes = []
  row_lines (suc fuel) i [] = []
  row_lines (suc fuel) i (b ∷ bytes) =
      let (row, rest) = split_row 32 (b ∷ bytes) in
      skip (print_row f i row) ∷ row_lines fuel (i + 32) rest

  columns-OnOneLine :
      (n j : ℕ) (row : List ℕ) → All (λ b. b < 256) row → OnOneLine (print_columns f n j row)
  unfolding print_columns
  columns-OnOneLine zero j row small = tt
  columns-OnOneLine (suc n) j [] small =
      All-append (λ c. c ≢ newline) (group j) _ (group-OnOneLine j)
        (space_apart, (space_apart, columns-OnOneLine n (j + 1) [] tt))
  columns-OnOneLine (suc n) j (c ∷ row) (small, smalls) =
      let (x, y, shown, _, first, second, _) = doc.digits c small in
      All-append (λ c. c ≢ newline) (group j) _ (group-OnOneLine j)
        (All-append (λ c. c ≢ newline) (f.hex2 c) _ (rw shown (first, (second, tt)))
          (columns-OnOneLine n (j + 1) row smalls))

  row-OnOneLine :
      (i : ℕ) (row : List ℕ) → All (λ b. b < 256) row → OnOneLine (skip (print_row f i row))
  unfolding print_row
  row-OnOneLine i row small =
      let ends : List ℕ = print_chars row ++ bar ∷ [] in
      let right : List ℕ = space ∷ space ∷ bar ∷ (ends) in
      let fine : OnOneLine right = (
        space_apart,
        (
          space_apart,
          (
            bar_apart,
            All-append (λ c. c ≢ newline) (print_chars row) (bar ∷ []) (print_chars-OnOneLine row)
                (bar_apart, tt),
          ),
        ),
      ) in
      let columns : OnOneLine (print_columns f 32 0 row ++ right) =
        All-append (λ c. c ≢ newline) (print_columns f 32 0 row) right
          (columns-OnOneLine 32 0 row small) fine in
      All-append (λ c. c ≢ newline) (f.hex4 i) (space ∷ (print_columns f 32 0 row ++ right))
        (doc.offset i).1 (space_apart, columns)

  print_row_lem : (i : ℕ) (row : List ℕ) → print_row f i row ≡ newline ∷ skip (print_row f i row)
  unfolding print_row
  print_row_lem i row = refl

  lines-print_rows :
      (fuel i : ℕ) (bytes : List ℕ)
      → All (λ b. b < 256) bytes
      → lines (print_rows f fuel i bytes) ≡ [] ∷ row_lines fuel i bytes
  unfolding print_rows
  lines-print_rows zero i bytes small = no_lines
  lines-print_rows (suc fuel) i [] small = no_lines
  lines-print_rows (suc fuel) i (b ∷ bytes) small =
      let (small_row, small_rest) = split_row-All (λ c. c < 256) 32 (b ∷ bytes) small in
      let row : List ℕ = (split_row 32 (b ∷ bytes)).0 in
      let rest : List ℕ = (split_row 32 (b ∷ bytes)).1 in
      ap (λ text. lines (text ++ print_rows f fuel (i + 32) rest)) (print_row_lem i row)
      ∙ lines-newline (skip (print_row f i row) ++ print_rows f fuel (i + 32) rest)
      ∙ ap (◌∷◌ []) (
          lines-append (skip (print_row f i row)) (print_rows f fuel (i + 32) rest) _
            (row-OnOneLine i row small_row) (lines-print_rows fuel (i + 32) rest small_rest))

  read_row :
      (i : ℕ) (row : List ℕ)
      → length row ≤ 32
      → All (λ b. b < 256) row
      → read_cells unhex 32 0 (after_space (skip (print_row f i row))) ≡ row
  unfolding print_row
  read_row i row h small =
      let right : List ℕ = space ∷ space ∷ bar ∷ (print_chars row ++ bar ∷ []) in
      ap (read_cells unhex 32 0)
        (after_space-append (f.hex4 i) (print_columns f 32 0 row ++ right) (doc.offset i).0)
      ∙ read_cells-print_columns 32 0 row right h small

  read-row_lines :
      (fuel i : ℕ) (bytes : List ℕ)
      → length bytes ≤ fuel
      → All (λ b. b < 256) bytes
      → read_lines unhex (row_lines fuel i bytes) ≡ bytes
  read-row_lines zero i [] h small = refl
  read-row_lines zero i (b ∷ bytes) h small = absurd (omega arith)
  read-row_lines (suc fuel) i [] h small = refl
  read-row_lines (suc fuel) i (b ∷ bytes) h small =
      let (small_row, small_rest) = split_row-All (λ c. c < 256) 32 (b ∷ bytes) small in
      let (joined, short) = split_row_lem 32 (b ∷ bytes) in
      let row : List ℕ = (split_row 32 (b ∷ bytes)).0 in
      let rest : List ℕ = (split_row 32 (b ∷ bytes)).1 in
      ap (λ xs. xs ++ read_lines unhex (row_lines fuel (i + 32) rest))
        (read_row i row short small_row)
      ∙ ap (◌++◌ row) (
          read-row_lines fuel (i + 32) rest (omega (arith, split_row_rest 31 b bytes, h))
            small_rest)
      ∙ joined

  -- Every byte is read back, in its place, from the text that is printed of them, whatever their
  -- number: the columns line up, and neither the sizes, nor the offsets, nor the characters in the
  -- right column are taken for them. What fmt prints a number as is as its documentation says.
  pub read-to_string :
      (bytes : List ℕ) → All (λ b. b < 256) bytes → read unhex (to_string f bytes) ≡ bytes
  unfolding to_string
  read-to_string bytes small =
      let n : ℕ = length bytes in
      let rows : List ℕ = print_rows f n 0 bytes in
      let ls : List (List ℕ) = row_lines n 0 bytes in
      let e₁ : Ends ls (codes " bytes]:" ++ rows) =
        Ends-append (codes " bytes]:") rows ls (ground arith)
          ([], lines-print_rows n 0 bytes small) in
      let t₁ : List ℕ = codes " bytes]:" ++ rows in
      let e₂ = Ends-append (f.hex_prefixed n) t₁ ls (doc.sizes n).1 e₁ in
      let t₂ : List ℕ = f.hex_prefixed n ++ t₁ in
      let e₃ = Ends-append (codes "/") t₂ ls (ground arith) e₂ in
      let e₄ = Ends-append (f.dec n) (codes "/" ++ t₂) ls (doc.sizes n).0 e₃ in
      let (l, all) =
        Ends-append (codes "Buffer[") (f.dec n ++ (codes "/" ++ t₂)) ls (ground arith) e₄ in
      ap (λ x. read_lines unhex (next_line x)) all ∙ read-row_lines n 0 bytes (omega arith) small
