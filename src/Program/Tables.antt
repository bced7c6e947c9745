-- ===== src/Program/Tables.antt =====
-- Tables of objects that have tables themselves (endpoint.hpp, listener.hpp, node.hpp).
use wshttp.Prelude.{
  ◌≡◌, refl, sym, ◌∙◌, true, ◌&&◌, Option, none, some, List, if◌then◌else◌, arith, Bool-cases,
  Option-cases, inl, inr,
}
use wshttp.Maps.{Key, find, assign, erase, is_some}
use wshttp.Maps.Laws.{find-assign, find-erase, find_same}
use wshttp.Program.{in_entry, mapped, change_entry}

module _ {ρ ι ν} {R : Type ρ} {J : Type ι} {V : Type ν} ⦃inner : Key J⦄
    (inside : R → List (J × V)) where
  in_entry-put :
      (f : R → R) (j j' : J) (v : V) (entry : Option (Option R))
      → ((r : R) → inside (f r) ≡ assign j v (inside r))
      → is_some (in_entry (λ r. find j (inside r)) entry) ≡ true
      → in_entry (λ r. find j' (inside r)) (mapped f entry)
        ≡ (if inner.same j j' then some v else in_entry (λ r. find j' (inside r)) entry)
  in_entry-put f j j' v none changed there = absurd (ground (arith, there))
  in_entry-put f j j' v (some none) changed there = absurd (ground (arith, there))
  in_entry-put f j j' v (some (some r)) changed there =
      rw (changed r) (find-assign j j' v (inside r) ∙ rw there refl)

  in_entry-remove :
      (f : R → R) (j j' : J) (entry : Option (Option R))
      → ((r : R) → inside (f r) ≡ (erase j (inside r)).0)
      → in_entry (λ r. find j' (inside r)) (mapped f entry)
        ≡ (if inner.same j j' then none else in_entry (λ r. find j' (inside r)) entry)
  in_entry-remove f j j' none changed = ground arith
  in_entry-remove f j j' (some none) changed = ground arith
  in_entry-remove f j j' (some (some r)) changed = rw (changed r) (find-erase j j' (inside r))

module _ {κ ρ} {K : Type κ} {R : Type ρ} ⦃key : Key K⦄ where
  pub find-change_entry :
      (k j : K) (f : R → R) (m : List (K × Option R))
      → find j (change_entry k f m) ≡ (if key.same k j then mapped f (find j m) else find j m)
  unfolding change_entry
  find-change_entry k j f m = elim (Bool-cases (key.same k j)) [
    | inl hit ↦ elim (Option-cases (find k m)) [
      | inl free ↦ rw (change_entry, free, hit, sym (find_same k j m hit) ∙ free) refl
      | inr (none, null) ↦ rw (change_entry, null, hit, sym (find_same k j m hit) ∙ null) refl
      | inr (some r, there) ↦
          let looked = find-assign k j (some (f r)) m in
          rw (change_entry, there, hit, sym (find_same k j m hit) ∙ there)
            (looked ∙ rw (there, hit) refl)
    ]
    | inr miss ↦ elim (Option-cases (find k m)) [
      | inl free ↦ rw (change_entry, free, miss) refl
      | inr (none, null) ↦ rw (change_entry, null, miss) refl
      | inr (some r, there) ↦
          rw (change_entry, there, miss) (find-assign k j (some (f r)) m ∙ rw (there, miss) refl)
    ]
  ]

  module _ {ι ν} {J : Type ι} {V : Type ν} ⦃inner : Key J⦄ (inside : R → List (J × V)) where
    abbrev look_in : K → J → List (K × Option R) → Option V
    look_in k j m = in_entry (λ r. find j (inside r)) (find k m)

    -- An object puts an entry in the place of one that it has.
    pub look_in-put :
        (f : R → R) (k k' : K) (j j' : J) (v : V) (m : List (K × Option R))
        → ((r : R) → inside (f r) ≡ assign j v (inside r))
        → is_some (look_in k j m) ≡ true
        → look_in k' j' (change_entry k f m)
          ≡ (if key.same k k' && inner.same j j' then some v else look_in k' j' m)
    look_in-put f k k' j j' v m changed there = elim (Bool-cases (key.same k k')) [
      | inl hit ↦
          rw (find-change_entry k k' f m, hit)
            (in_entry-put inside f j j' v (find k' m) changed
              (rw (sym (find_same k k' m hit)) there))
      | inr miss ↦ rw (find-change_entry k k' f m, miss) refl
    ]

    -- An object drops an entry.
    pub look_in-remove :
        (f : R → R) (k k' : K) (j j' : J) (m : List (K × Option R))
        → ((r : R) → inside (f r) ≡ (erase j (inside r)).0)
        → look_in k' j' (change_entry k f m)
          ≡ (if key.same k k' && inner.same j j' then none else look_in k' j' m)
    look_in-remove f k k' j j' m changed = elim (Bool-cases (key.same k k')) [
      | inl hit ↦
          rw (find-change_entry k k' f m, hit) (in_entry-remove inside f j j' (find k' m) changed)
      | inr miss ↦ rw (find-change_entry k k' f m, miss) refl
    ]
