-- ===== src/Maps.antt =====
-- The `std::unordered_map` of the program: at most one entry for each key, found by hash and
-- equality. The order of the entries is never relied on.
pub mod Laws
pub mod Alike
use text.Mathlib.Text.{◌==◌ as text_eq}
use wshttp.Prelude.{
  refl, ap, ℕ, ◌≡◌, ◌≢◌, sym, Bool, true, false, Option, none, some, List, [], ◌∷◌, if◌then◌else◌,
  nat_eqb, nat_eqb_iff, String, eq_iff, Bool-cases, arith,
}

-- What a key type owes its map: an equality that is an equivalence.
pub record Key {ℓ} (K : Type ℓ) : Type ℓ where
  pub same : K → K → Bool
  pub same_refl : (a : K) → same a a ≡ true
  pub same_left : (a b c : K) → same a b ≡ true → same a c ≡ same b c

abbrev pub is_some {ℓ} : {A : Type ℓ} → Option A → Bool
is_some none = false
is_some (some _) = true

module _ {ℓ κ} {K : Type ℓ} {V : Type κ} ⦃key : Key K⦄ where
  unfoldable pub find : K → List (K × V) → Option V
  find k [] = none
  find k ((j, v) ∷ m) = if key.same j k then some v else find k m

  without : K → List (K × V) → List (K × V)
  without k [] = []
  without k ((j, v) ∷ m) = if key.same j k then without k m else (j, v) ∷ without k m

  -- `m.try_emplace(k, v)` and `m.emplace(k, v)`: nothing is changed where the key is taken.
  -- The flag says whether the entry was made.
  unfoldable pub try_emplace : K → V → List (K × V) → List (K × V) × Bool
  try_emplace k v m = elim (find k m) [ none ↦ ((k, v) ∷ m, true) | some _ ↦ (m, false) ]

  -- `it->second = v`, where `it` stands at the key `k`.
  unfoldable pub assign : K → V → List (K × V) → List (K × V)
  assign k v [] = []
  assign k v ((j, w) ∷ m) = (if key.same j k then (j, v) else (j, w)) ∷ assign k v m

  -- `m.erase(k)`, with whether an entry went.
  pub erase : K → List (K × V) → List (K × V) × Bool
  unfolding without
  erase k m = (without k m, is_some (find k m))

instance abbrev pub nat_key : Key ℕ
nat_key = record {
  same = nat_eqb;
  same_refl = λ a. (nat_eqb_iff a a).1 refl;
  same_left = λ a b c e. ap (λ x. nat_eqb x c) ((nat_eqb_iff a b).0 e);
}

instance abbrev pub string_key : Key String
string_key = record {
  same = text_eq;
  same_refl = λ a. (eq_iff a a).1 refl;
  same_left = λ a b c e. ap (λ x. text_eq x c) ((eq_iff a b).0 e);
}
