-- ===== src/Format/Buffer/Reader.antt =====
-- src/internal.hpp: a reader of what `buffer_printer` prints, written for itself.
use wshttp.Prelude.{
  Option, none, some, ℕ, zero, suc, ◌+◌, ◌≡◌, ◌≢◌, refl, inl, inr, false, List, [], ◌∷◌, ◌++◌, ◌==◌,
  nat_eq, ◌%◌, if◌then◌else◌, arith, All, Bool-cases,
}
use wshttp.Format.Buffer.{newline, space, group}

-- A reader of such a text, written for itself: its lines after the first one, and of each the
-- columns after its first space, up to the first blank one. `unhex` reads two digits.
abbrev pub push : ℕ → List (List ℕ) → List (List ℕ)
push c [] = (c ∷ []) ∷ []
push c (l ∷ ls) = (c ∷ l) ∷ ls

pub lines : List ℕ → List (List ℕ)
lines [] = [] ∷ []
lines (c ∷ cs) = let rest = lines cs in if c == newline then [] ∷ rest else push c rest

pub after_space : List ℕ → List ℕ
after_space [] = []
after_space (c ∷ cs) = if c == space then cs else after_space cs

abbrev pub skip : List ℕ → List ℕ
skip [] = []
skip (c ∷ cs) = cs

abbrev pub next_line : List (List ℕ) → List (List ℕ)
next_line [] = []
next_line (l ∷ ls) = ls

abbrev pub OnOneLine : List ℕ → Type 0
OnOneLine = All (λ c. c ≢ newline)

pub lines-append :
    (xs ys : List ℕ) (ls : List (List ℕ))
    → OnOneLine xs
    → lines ys ≡ [] ∷ ls
    → lines (xs ++ ys) ≡ xs ∷ ls
unfolding lines
lines-append [] ys ls h e = e
lines-append (x ∷ xs) ys ls h e = ground (arith, lines-append xs ys ls h.1 e, h.0)

pub after_space-append :
    (xs ys : List ℕ) → All (λ c. c ≢ space) xs → after_space (xs ++ space ∷ ys) ≡ ys
unfolding after_space
after_space-append [] ys h = refl
after_space-append (x ∷ xs) ys h = ground (arith, after_space-append xs ys h.1, h.0)

-- The two digits of the next column, and what follows it: `none` where it is blank.
abbrev pub cell : List ℕ → Option (ℕ × ℕ × List ℕ)
cell (x ∷ y ∷ rest) = if x == space then none else some (x, y, rest)
cell _ = none

abbrev pub strip : ℕ → List ℕ → List ℕ
strip j text = if j % 4 == 0 then skip text else text

unfoldable pub read_cells : (unhex : ℕ → ℕ → ℕ) → (n j : ℕ) → List ℕ → List ℕ
read_cells unhex zero j text = []
read_cells unhex (suc n) j text = elim (cell (strip j text)) [
  | none ↦ []
  | some (x, y, rest) ↦ unhex x y ∷ read_cells unhex n (j + 1) rest
]

abbrev pub read_lines : (unhex : ℕ → ℕ → ℕ) → List (List ℕ) → List ℕ
read_lines unhex [] = []
read_lines unhex (l ∷ ls) = read_cells unhex 32 0 (after_space l) ++ read_lines unhex ls

abbrev pub read : (unhex : ℕ → ℕ → ℕ) → List ℕ → List ℕ
read unhex text = read_lines unhex (next_line (lines text))

pub read_cells_blank :
    (unhex : ℕ → ℕ → ℕ) (n j y : ℕ) (columns after : List ℕ)
    → read_cells unhex (suc n) j ((group j ++ space ∷ y ∷ columns) ++ after) ≡ []
unfolding read_cells
read_cells_blank unhex n j y columns after = elim (Bool-cases (j % 4 == 0)) [
  | inl starts ↦ rw (read_cells, starts) refl
  | inr inside ↦ rw (read_cells, inside) refl
]

pub read_cells_digits :
    (unhex : ℕ → ℕ → ℕ) (n j x y : ℕ) (columns after : List ℕ)
    → x ≢ space
    → read_cells unhex (suc n) j ((group j ++ ((x ∷ y ∷ []) ++ columns)) ++ after)
      ≡ unhex x y ∷ read_cells unhex n (j + 1) (columns ++ after)
unfolding read_cells
read_cells_digits unhex n j x y columns after digit =
    let plain : (x == space) ≡ false = ground (arith, digit) in
    elim (Bool-cases (j % 4 == 0)) [
      | inl starts ↦ rw (read_cells, starts, plain) refl
      | inr inside ↦ rw (read_cells, inside, plain) refl
    ]

-- The text's first line is followed by those.
abbrev pub Ends : List (List ℕ) → List ℕ → Type 0
Ends ls text = (l : List ℕ) × (lines text ≡ l ∷ ls)

pub Ends-append :
    (xs ys : List ℕ) (ls : List (List ℕ)) → OnOneLine xs → Ends ls ys → Ends ls (xs ++ ys)
unfolding lines
Ends-append [] ys ls h e = e
Ends-append (x ∷ xs) ys ls (apart, h) e =
    let (l, same) = Ends-append xs ys ls h e in (x ∷ l, ground (arith, same, apart))

pub no_lines : lines [] ≡ [] ∷ []
unfolding lines
no_lines = refl

pub lines-newline : (cs : List ℕ) → lines (newline ∷ cs) ≡ [] ∷ lines cs
unfolding lines
lines-newline cs = refl
