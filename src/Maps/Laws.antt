-- ===== src/Maps/Laws.antt =====
-- The laws of the map operations, in the form that the components use.
use wshttp.Prelude.{
  false, true, ◌≡◌, sym, ◌∙◌, Bool-cases, inl, inr, refl, not, ◌&&◌, none, some, List, [], ◌∷◌,
  if◌then◌else◌, arith, All, subst,
}
use wshttp.Maps.{Key, find, without, try_emplace, assign, erase, is_some}

module _ {ℓ} {K : Type ℓ} ⦃key : Key K⦄ where
  pub same_comm : (a b : K) → key.same a b ≡ key.same b a
  same_comm a b =
      ground (arith, key.same_left a b a, key.same_left b a b, key.same_refl a, key.same_refl b)

  same_right : (a b c : K) → key.same b c ≡ true → key.same a b ≡ key.same a c
  same_right a b c e = ground (arith, key.same_left b c a, same_comm a b, same_comm a c)

module _ {ℓ κ} {K : Type ℓ} {V : Type κ} ⦃key : Key K⦄ where
  find-without :
      (k j : K) (m : List (K × V))
      → find j (without k m) ≡ (if key.same k j then none else find j m)
  unfolding find without
  find-without k j [] = ground arith
  find-without k j ((i, v) ∷ m) =
      ground (arith, find-without k j m, key.same_left i k j, same_right i k j)

  pub find-erase :
      (k j : K) (m : List (K × V))
      → find j (erase k m).0 ≡ (if key.same k j then none else find j m)
  unfolding erase
  find-erase k j m = find-without k j m

  pub find-cons :
      (k j : K) (v : V) (m : List (K × V))
      → find j ((k, v) ∷ m) ≡ (if key.same k j then some v else find j m)
  unfolding find
  find-cons k j v m = refl

  pub find-assign :
      (k j : K) (v : V) (m : List (K × V))
      → find j (assign k v m) ≡ (if is_some (find k m) && key.same k j then some v else find j m)
  unfolding find assign
  find-assign k j v [] = refl
  find-assign k j v ((i, w) ∷ m) =
      ground (arith, find-assign k j v m, key.same_left i k j, same_right i k j)

  pub find-try_emplace :
      (k j : K) (v : V) (m : List (K × V))
      → find j (try_emplace k v m).0
        ≡ (if not (is_some (find k m)) && key.same k j then some v else find j m)
  unfolding try_emplace find
  find-try_emplace k j v m = ground arith

  pub try_emplace_made :
      (k : K) (v : V) (m : List (K × V)) → (try_emplace k v m).1 ≡ not (is_some (find k m))
  unfolding try_emplace
  try_emplace_made k v m = ground arith

  pub erase_found : (k : K) (m : List (K × V)) → (erase k m).1 ≡ is_some (find k m)
  unfolding erase
  erase_found k m = refl

  pub find_of_empty : (k : K) (m : List (K × V)) → m ≡ [] → find k m ≡ none
  unfolding find
  find_of_empty k m e = rw e

  pub erase_of_empty : (k : K) (m : List (K × V)) → m ≡ [] → erase k m ≡ (m, false)
  unfolding erase find without
  erase_of_empty k m e = rw e

  pub try_emplace_new :
      (k : K) (v : V) (m : List (K × V)) → find k m ≡ none → try_emplace k v m ≡ ((k, v) ∷ m, true)
  unfolding try_emplace
  try_emplace_new k v m e = rw (try_emplace, e) refl

  pub try_emplace_taken :
      (k : K) (v w : V) (m : List (K × V)) → find k m ≡ some w → try_emplace k v m ≡ (m, false)
  unfolding try_emplace
  try_emplace_taken k v w m e = rw (try_emplace, e) refl

  pub find-assign_new :
      (k j : K) (v w : V) (m : List (K × V))
      → find j (assign k w ((k, v) ∷ m)) ≡ (if key.same k j then some w else find j m)
  find-assign_new k j v w m =
      ground (
        arith,
        find-assign k j w ((k, v) ∷ m),
        find-cons k j v m,
        find-cons k k v m,
        key.same_refl k,
      )

  pub find_same : (k j : K) (m : List (K × V)) → key.same k j ≡ true → find k m ≡ find j m
  unfolding find
  find_same k j [] e = refl
  find_same k j ((i, w) ∷ m) e = rw (same_right i k j e, find_same k j m e) refl

  pub find_taken :
      (k j : K) (w : V) (m : List (K × V))
      → find k m ≡ some w
      → find j m ≡ (if key.same k j then some w else find j m)
  find_taken k j w m e = elim (Bool-cases (key.same k j)) [
    | inl hit ↦ rw hit (sym (find_same k j m hit) ∙ e)
    | inr miss ↦ rw miss refl
  ]

  pub find_free :
      (k j : K) (m : List (K × V))
      → find k m ≡ none
      → (if key.same k j then none else find j m) ≡ find j m
  find_free k j m e = elim (Bool-cases (key.same k j)) [
    | inl hit ↦ rw hit (sym e ∙ find_same k j m hit)
    | inr miss ↦ rw miss refl
  ]

  -- A predicate of the entries, over the operations.
  pub All-erase : (Q : K × V → Type 0) (k : K) (m : List (K × V)) → All Q m → All Q (erase k m).0
  unfolding erase without
  All-erase Q k [] all = tt
  All-erase Q k ((j, v) ∷ m) (here, there) = elim (Bool-cases (key.same j k)) [
    | inl hit ↦ rw (erase, without, hit) (All-erase Q k m there)
    | inr miss ↦ rw (erase, without, miss) (here, All-erase Q k m there)
  ]

  pub All-assign :
      (Q : K × V → Type 0) (k : K) (v : V) (m : List (K × V))
      → ((j : K) → key.same j k ≡ true → Q (j, v))
      → All Q m
      → All Q (assign k v m)
  unfolding assign
  All-assign Q k v [] fits all = tt
  All-assign Q k v ((j, w) ∷ m) fits (here, there) = elim (Bool-cases (key.same j k)) [
    | inl hit ↦ rw (assign, hit) (fits j hit, All-assign Q k v m fits there)
    | inr miss ↦ rw (assign, miss) (here, All-assign Q k v m fits there)
  ]

  pub All-assign_new :
      (Q : K × V → Type 0) (k : K) (v w : V) (m : List (K × V))
      → ((j : K) → key.same j k ≡ true → Q (j, v))
      → All Q m
      → All Q (assign k v ((k, w) ∷ m))
  unfolding assign
  All-assign_new Q k v w m fits all =
      rw (assign, key.same_refl k) (fits k (key.same_refl k), All-assign Q k v m fits all)

  pub All-find :
      (Q : K × V → Type 0) (k : K) (v : V) (m : List (K × V))
      → All Q m
      → find k m ≡ some v
      → (j : K) × (key.same j k ≡ true) × Q (j, v)
  unfolding find
  All-find Q k v [] all found = absurd (ground (arith, found))
  All-find Q k v ((j, w) ∷ m) (here, there) found = elim (Bool-cases (key.same j k)) [
    | inl hit ↦
        let same : w ≡ v = ground (arith, hit, found) in (j, hit, subst (λ x. Q (j, x)) same here)
    | inr miss ↦ All-find Q k v m there (ground (arith, miss, found))
  ]
