-- ===== src/Prelude/Lists.antt =====
-- Lists measured by native numbers, and predicates and texts as lists.
use Prim.Native.Char.{code}
use Prim.Native.Nat.{ℕ, zero, suc, ◌+◌, ◌<◌}
use Prim.Native.String.{String}
use mathlib.Core.Path.{◌≡◌, refl}
use mathlib.Core.List.{List, [], ◌∷◌, ◌++◌}
use mathlib.Core.Option.{Option, none, some}
use native.Mathlib.Omega.{arith}

-- The code points of a text: its bytes, since every literal of the program is ASCII.
abbrev pub codes : String → List ℕ
codes String.[] = []
codes (String.◌∷◌ c s) = code c ∷ codes s

module _ {ℓ} {A : Type ℓ} where
  abbrev pub length : List A → ℕ
  length [] = 0
  length (x ∷ xs) = suc (length xs)

  abbrev pub get_elem? : List A → ℕ → Option A
  get_elem? [] i = none
  get_elem? (x ∷ xs) zero = some x
  get_elem? (x ∷ xs) (suc i) = get_elem? xs i

  abbrev pub replicate : ℕ → A → List A
  replicate zero x = []
  replicate (suc n) x = x ∷ replicate n x

  pub length-append : (xs ys : List A) → length (xs ++ ys) ≡ length xs + length ys
  length-append [] ys = omega arith
  length-append (x ∷ xs) ys = omega (arith, length-append xs ys)

abbrev pub All {ℓ κ} : {T : Type ℓ} → (T → Type κ) → List T → Type κ
All holds [] = Unit
All holds (t ∷ ts) = holds t × All holds ts

module _ {ℓ} {A : Type ℓ} where
  pub get_elem?_below : (xs : List A) (i : ℕ) → i < length xs → (a : A) × (get_elem? xs i ≡ some a)
  get_elem?_below [] i h = elim h [ ]
  get_elem?_below (x ∷ xs) zero h = (x, refl)
  get_elem?_below (x ∷ xs) (suc i) h = get_elem?_below xs i (omega arith)

  pub get_elem?-append_last : (xs : List A) (a : A) → get_elem? (xs ++ a ∷ []) (length xs) ≡ some a
  get_elem?-append_last [] a = refl
  get_elem?-append_last (x ∷ xs) a = get_elem?-append_last xs a

  pub get_elem?-append_left :
      (xs ys : List A) (i : ℕ) → i < length xs → get_elem? (xs ++ ys) i ≡ get_elem? xs i
  get_elem?-append_left [] ys i h = elim h [ ]
  get_elem?-append_left (x ∷ xs) ys zero h = refl
  get_elem?-append_left (x ∷ xs) ys (suc i) h = get_elem?-append_left xs ys i (omega arith)

pub All-snoc {ℓ κ} :
    {T : Type ℓ} (holds : T → Type κ) (ts : List T) (last : T)
    → All holds ts
    → holds last
    → All holds (ts ++ last ∷ [])
All-snoc holds [] last h e = (e, tt)
All-snoc holds (t ∷ ts) last h e = (h.0, All-snoc holds ts last h.1 e)

pub All-append {ℓ κ} :
    {T : Type ℓ} (holds : T → Type κ) (ts us : List T)
    → All holds ts
    → All holds us
    → All holds (ts ++ us)
All-append holds [] us h k = k
All-append holds (t ∷ ts) us h k = (h.0, All-append holds ts us h.1 k)
