-- ===== src/Prelude/Outcome.antt =====
-- C++ exceptions as values: the kinds of exception that the program throws, without their texts,
-- with `null_access` for a call through a null pointer and `dangling_access` for the use of an object
-- that is gone, both undefined in C++.
use Prim.Native.Nat.{ℕ}
use mathlib.Core.Bool.{Bool, true, false}
use mathlib.Core.Path.{◌≡◌, refl}
use mathlib.Core.Logic.{◌⊎◌, inl, inr}

pub data Exception : Type 0 where
  runtime_error invalid_argument bad_variant_access null_access dangling_access : Exception
  system_error : ℕ → Exception

pub data Result {ℓ} (A : Type ℓ) : Type ℓ where
  ok : A → Result A
  throw : Exception → Result A

infixl 5 ◌>>=◌ ◌>>◌
abbrev pub ◌>>=◌ {ℓ κ} : {V : Type ℓ} {W : Type κ} → Result V → (V → Result W) → Result W
throw x >>= next = throw x
ok v >>= next = next v

abbrev pub ◌>>◌ {ℓ} : {B : Type ℓ} → Result (Unit {0}) → Result B → Result B
m >> k = m >>= λ _. k

-- `if (not b) throw e;`
abbrev pub require : Bool → Exception → Result (Unit {0})
require true e = ok tt
require false e = throw e

pub Result-cases {ℓ} :
    {A : Type ℓ} (r : Result A) → ((e : Exception) × (r ≡ throw e)) ⊎ ((a : A) × (r ≡ ok a))
Result-cases (ok a) = inr (a, refl)
Result-cases (throw e) = inl (e, refl)
