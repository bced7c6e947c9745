-- ===== src/Prelude/Bits.antt =====
-- The bitwise or of two fields that do not overlap is their sum.
use Prim.Native.Nat.{
  ℕ, zero, suc, ◌+◌, ◌*◌, ◌/◌, ◌%◌, ◌^◌, ◌≤◌, ◌<◌, max, digits, bit_or, bit_or-bitwise,
}
use mathlib.Core.Path.{◌≡◌, refl, ap}
use native.Mathlib.Nat.{pow-suc}
use native.Mathlib.Omega.{arith}

-- The recursion on binary digits that `bit_or` stands for, with its fuel.
abbrev or_digits : ℕ → ℕ → ℕ → ℕ
or_digits fuel x y = digits (λ b. b) max fuel x y

or_digits_enough :
    (fuel more x y : ℕ) → x ≤ fuel → x ≤ more → or_digits fuel x y ≡ or_digits more x y
or_digits_enough zero zero x y h k = refl
or_digits_enough zero (suc more) zero y h k = refl
or_digits_enough zero (suc more) (suc x) y h k = absurd (omega arith)
or_digits_enough (suc fuel) zero zero y h k = refl
or_digits_enough (suc fuel) zero (suc x) y h k = absurd (omega arith)
or_digits_enough (suc fuel) (suc more) zero y h k = refl
or_digits_enough (suc fuel) (suc more) (suc x) y h k =
    omega (arith, or_digits_enough fuel more (suc x / 2) (y / 2) (omega arith) (omega arith))

bit_or_zero_left : (y : ℕ) → bit_or 0 y ≡ y
bit_or_zero_left y = bit_or-bitwise 0 y

-- The lowest digit, and the rest.
bit_or_low : (x y : ℕ) → bit_or x y ≡ bit_or (x / 2) (y / 2) * 2 + max (x % 2) (y % 2)
bit_or_low zero y = omega (arith, bit_or_zero_left y, bit_or_zero_left (y / 2))
bit_or_low (suc x) y = omega (
  arith,
  bit_or-bitwise (suc x) y,
  bit_or-bitwise (suc x / 2) (y / 2),
  or_digits_enough x (suc x / 2) (suc x / 2) (y / 2) (omega arith) (omega arith),
)

bit_or_zero_below : (bound x : ℕ) → x ≤ bound → bit_or x 0 ≡ x
bit_or_zero_below bound zero h = refl
bit_or_zero_below zero (suc x) h = absurd (omega arith)
bit_or_zero_below (suc bound) (suc x) h =
    omega (arith, bit_or_low (suc x) 0, bit_or_zero_below bound (suc x / 2) (omega arith))

double_shift : (q k : ℕ) → q * 2 ^ suc k ≡ 2 * (q * 2 ^ k)
double_shift q k = omega (arith, ap (λ (t : ℕ). q * t) (pow-suc 2 k))

-- `(q << k) | r` where `r` has at most `k` bits.
pub bit_or_disjoint : (k q r : ℕ) → r < 2 ^ k → bit_or (q * 2 ^ k) r ≡ q * 2 ^ k + r
bit_or_disjoint zero q r h = ground (arith, bit_or_zero_below q q)
bit_or_disjoint (suc k) q r h = ground (
  arith,
  bit_or_low (q * 2 ^ suc k) r,
  double_shift q k,
  bit_or_disjoint k q (r / 2) (omega arith),
)
