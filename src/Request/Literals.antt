-- ===== src/Request/Literals.antt =====
-- types.hpp, request.hpp: a byte literal compared with bytes from the wire.
use wshttp.Prelude.{
  ℕ, ◌≡◌, ◌≢◌, refl, ◌↔◌, String, true, false, List, [], ◌∷◌, ◌++◌, codes, arith, All, Bool-cases,
  inl, inr,
}
use wshttp.Request.{usp, span_equal, span_compare}
use Prim.Native.Nat.{Ordering}

pub span_equal_iff : (xs ys : List ℕ) → (span_equal xs ys ≡ true) ↔ (xs ≡ ys)
unfolding span_equal
span_equal_iff [] [] = (λ _. refl, λ _. refl)
span_equal_iff [] (y ∷ ys) = (λ e. cc, λ e. cc)
span_equal_iff (x ∷ xs) [] = (λ e. cc, λ e. cc)
span_equal_iff (x ∷ xs) (y ∷ ys) = ground (arith, span_equal_iff xs ys)

-- The three-way comparison of spans answers "equal" exactly where `operator==` does.
pub span_compare-span_equal :
    (xs ys : List ℕ) → (span_compare xs ys ≡ Ordering.eq) ↔ (span_equal xs ys ≡ true)
unfolding span_compare span_equal
span_compare-span_equal [] [] = (λ _. refl, λ _. refl)
span_compare-span_equal [] (y ∷ ys) = (λ e. cc, λ e. cc)
span_compare-span_equal (x ∷ xs) [] = (λ e. cc, λ e. cc)
span_compare-span_equal (x ∷ xs) (y ∷ ys) = ground (arith, span_compare-span_equal xs ys)

abbrev pub HasNoZero : List ℕ → Type 0
HasNoZero = All (λ b. b ≢ 0)

ends_in_zero : (xs bs : List ℕ) → HasNoZero bs → xs ++ 0 ∷ [] ≢ bs
ends_in_zero [] [] h e = cc
ends_in_zero [] (b ∷ bs) h e = ground arith
ends_in_zero (x ∷ xs) [] h e = cc
ends_in_zero (x ∷ xs) (b ∷ bs) h e = ends_in_zero xs bs h.1 (ground arith)

-- Whatever its text, a `_usp` literal equals no bytes that hold no zero: the literal ends in its
-- terminating zero.
pub span_equal-usp : (s : String) (bs : List ℕ) → HasNoZero bs → span_equal (usp s) bs ≡ false
span_equal-usp s bs h = elim (Bool-cases (span_equal (usp s) bs)) [
  | inl e ↦ absurd (ends_in_zero (codes s) bs h ((span_equal_iff _ _).0 e))
  | inr e ↦ e
]
