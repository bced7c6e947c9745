-- ===== src/Maps/Alike.antt =====
-- Tables of a `std::unordered_map` that keep the same entries.
use wshttp.Prelude.{◌≡◌, sym, ◌∙◌, List}
use wshttp.Maps.{Key, find, erase}
use wshttp.Maps.Laws.{find-erase}

module _ {ℓ κ} {K : Type ℓ} {V : Type κ} ⦃key : Key K⦄ where
  -- The same entry, if any, under every key.
  abbrev pub Alike : List (K × V) → List (K × V) → Type (ℓ ⊔ κ)
  Alike m m' = (k : K) → find k m ≡ find k m'

  pub Alike-erase : (k : K) (m m' : List (K × V)) → Alike m m' → Alike (erase k m).0 (erase k m').0
  Alike-erase k m m' alike j = find-erase k j m ∙ rw (alike j) (sym (find-erase k j m'))
