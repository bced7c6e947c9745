-- ===== src/Owned/Keeping.antt =====
-- session.cpp and loop.cpp: what a part that owns sessions keeps, with the jobs that wait.
use wshttp.Prelude.{
  ◌≡◌, refl, sym, ◌∙◌, ◌⊎◌, inl, inr, true, Option, none, some, List, [], ◌∷◌, All, arith,
}
use wshttp.Prelude.Outcome.{Result, ok, throw, runtime_error}
use wshttp.Session.{Session}
use wshttp.Owned.{IsOther, IsQuiet, IsUntouched, Store, Job, closes, does, System, outlived, become}

module _ {ℓ} {S : Type ℓ} {P C : Type 0} (store : Store S P C) (Fine : P → Session → Type 0) where
  -- An entry is no null pointer, and a session that stands at its own place.
  abbrev pub Entry : P → Option Session → Type 0
  Entry p none = ⊥
  Entry p (some t) = (store.places.same (store.own p t) p ≡ true) × Fine p t

  abbrev pub Entries : S → Type 0
  Entries s = (p : P) (v : Option Session) → store.look p s ≡ some v → Entry p v

  abbrev pub Stands : P → S → Type 0
  Stands p s = (t : Session) × (store.look p s ≡ some (some t))

  -- Each job that waits points to something that is there, no two to the same, and no job that waits
  -- before it takes that away.
  abbrev pub Owed : List (Job P C) → S → Type 0
  Owed [] s = Unit
  Owed (closes p alive ∷ jobs) s =
      (alive ≡ true) × Stands p s × All (IsOther store p) jobs × Owed jobs s
  Owed (does c alive ∷ jobs) s =
      (alive ≡ true) × store.Able c s × All (IsUntouched store c) jobs × Owed jobs s

  pub record Good (w : System S P C) : Type 0 where
    pub entries : Entries w.state
    pub owed : Owed w.pending w.state

  -- Only the exception for what could not be set up or sent.
  abbrev pub GoodResult : Result (System S P C) → Type 0
  GoodResult (ok w) = Good w
  GoodResult (throw e) = e ≡ runtime_error

  -- What has become of the place `p` when the tables change from `s` to `s'`: nothing, or, where no
  -- job that waits empties the place, whatever may stand there.
  abbrev pub Change : List (Job P C) → S → S → P → Type 0
  Change jobs s s' p =
      (store.look p s' ≡ store.look p s)
      ⊎ (IsQuiet store p jobs × ((v : Option Session) → store.look p s' ≡ some v → Entry p v))

  Change-Entries :
      (jobs : List (Job P C)) (s s' : S) → ((p : P) → Change jobs s s' p) → Entries s → Entries s'
  Change-Entries jobs s s' changed entries p v found = elim (changed p) [
    | inl same ↦ entries p v (sym same ∙ found)
    | inr (quiet, fine) ↦ fine v found
  ]

  -- The place of a job that waits has not changed.
  stays :
      (p : P) (jobs : List (Job P C)) (s s' : S)
      → Change (closes p true ∷ jobs) s s' p
      → store.look p s' ≡ store.look p s
  stays p jobs s s' (inl same) = same
  stays p jobs s s' (inr ((apart, _), _)) = absurd (ground (arith, apart, store.places.same_refl p))

  weaker :
      (job : Job P C) (jobs : List (Job P C)) (s s' : S) (p : P)
      → Change (job ∷ jobs) s s' p
      → Change jobs s s' p
  weaker job jobs s s' p (inl same) = inl same
  weaker job jobs s s' p (inr ((_, quiet), fine)) = inr (quiet, fine)

  outlived-IsOther :
      (p : P) (s : S) (jobs : List (Job P C))
      → All (IsOther store p) jobs
      → All (IsOther store p) (outlived store s jobs)
  unfolding outlived
  outlived-IsOther p s [] others = tt
  outlived-IsOther p s (closes q alive ∷ jobs) (other, others) =
      (other, outlived-IsOther p s jobs others)
  outlived-IsOther p s (does c alive ∷ jobs) (other, others) =
      (tt, outlived-IsOther p s jobs others)

  outlived-IsUntouched :
      (c : C) (s : S) (jobs : List (Job P C))
      → All (IsUntouched store c) jobs
      → All (IsUntouched store c) (outlived store s jobs)
  unfolding outlived
  outlived-IsUntouched c s [] others = tt
  outlived-IsUntouched c s (closes q alive ∷ jobs) (other, others) =
      (other, outlived-IsUntouched c s jobs others)
  outlived-IsUntouched c s (does c' alive ∷ jobs) (other, others) =
      (other, outlived-IsUntouched c s jobs others)

  outlived-Owed :
      (jobs : List (Job P C)) (s s' : S)
      → ((p : P) → Change jobs s s' p)
      → ((c : C) → store.Able c s → store.Able c s')
      → Owed jobs s
      → Owed (outlived store s' jobs) s'
  unfolding outlived
  outlived-Owed [] s s' changed able owed = tt
  outlived-Owed (closes p alive ∷ jobs) s s' changed able (live, (t, found), others, rest) =
      let same = stays p jobs s s' (changed p) in
      (
        rw (live, same, found) refl,
        (t, same ∙ found),
        outlived-IsOther p s' jobs others,
        outlived-Owed jobs s s' (λ q. weaker (closes p alive) jobs s s' q (changed q)) able rest,
      )
  outlived-Owed (does c alive ∷ jobs) s s' changed able (live, can, untouched, rest) = (
    rw (live, store.able_stands c s' (able c can)) refl,
    able c can,
    outlived-IsUntouched c s' jobs untouched,
    outlived-Owed jobs s s' (λ q. weaker (does c alive) jobs s s' q (changed q)) able rest,
  )

  -- Whatever changes the tables leaves a good system, if it changes only places that no job empties,
  -- puts there what may stand there, and leaves the objects that post jobs.
  pub become-Good :
      (s' : S) (w : System S P C)
      → ((p : P) → Change w.pending w.state s' p)
      → ((c : C) → store.Able c w.state → store.Able c s')
      → Good w
      → Good (become store s' w)
  unfolding become
  become-Good s' w changed able good = record {
    entries = Change-Entries w.pending w.state s' changed good.entries;
    owed = outlived-Owed w.pending w.state s' changed able good.owed;
  }
