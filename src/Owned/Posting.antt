-- ===== src/Owned/Posting.antt =====
-- session.cpp and loop.cpp: what a part that owns sessions keeps when it posts jobs.
use wshttp.Prelude.{
  ◌≡◌, refl, subst, ◌∙◌, ◌⊎◌, inl, inr, true, some, List, [], ◌∷◌, ◌++◌, All-snoc, arith,
  Bool-cases,
}
use mathlib.Core.List.{append-nil}
use wshttp.Prelude.Outcome.{Result, ok, throw, runtime_error}
use wshttp.Maps.Laws.{same_comm}
use wshttp.Session.{Session, Posted}
use wshttp.Owned.{
  IsOther, IsQuiet, IsIdle, IsUntouched, Store, Job, closes, does, System, settle, post, callback,
}
use wshttp.Owned.Keeping.{Entry, Entries, Stands, Owed, Good, GoodResult}

module _ {ℓ} {S : Type ℓ} {P C : Type 0} (store : Store S P C) (Fine : P → Session → Type 0) where
  Owed-Stands :
      (jobs : List (Job P C)) (s s' : S)
      → ((p : P) → Stands store Fine p s → Stands store Fine p s')
      → ((c : C) → store.Able c s → store.Able c s')
      → Owed store Fine jobs s
      → Owed store Fine jobs s'
  Owed-Stands [] s s' stand able owed = tt
  Owed-Stands (closes p alive ∷ jobs) s s' stand able (live, there, others, rest) =
      (live, stand p there, others, Owed-Stands jobs s s' stand able rest)
  Owed-Stands (does c alive ∷ jobs) s s' stand able (live, can, untouched, rest) =
      (live, able c can, untouched, Owed-Stands jobs s s' stand able rest)

  -- One more job, of a session whose place no job empties.
  Owed-closes :
      (jobs : List (Job P C)) (p : P) (s : S)
      → Owed store Fine jobs s
      → IsQuiet store p jobs
      → Stands store Fine p s
      → Owed store Fine (jobs ++ closes p true ∷ []) s
  Owed-closes [] p s owed quiet there = (refl, there, tt, tt)
  Owed-closes (closes q alive ∷ jobs) p s (live, seen, others, rest) (apart, quiet) there = (
    live,
    seen,
    All-snoc (IsOther store q) jobs _ others (same_comm ⦃key = store.places⦄ q p ∙ apart),
    Owed-closes jobs p s rest quiet there,
  )
  Owed-closes (does c alive ∷ jobs) p s (live, can, untouched, rest) (apart, quiet) there = (
    live,
    can,
    All-snoc (IsUntouched store c) jobs _ untouched apart,
    Owed-closes jobs p s rest quiet there,
  )

  -- One more job, of an object that has none.
  Owed-does :
      (jobs : List (Job P C)) (c : C) (s : S)
      → Owed store Fine jobs s
      → IsIdle store c jobs
      → store.Able c s
      → Owed store Fine (jobs ++ does c true ∷ []) s
  Owed-does [] c s owed idle can = (refl, can, tt, tt)
  Owed-does (closes q alive ∷ jobs) c s (live, seen, others, rest) (_, idle) can = (
    live,
    seen,
    All-snoc (IsOther store q) jobs (does c true) others tt,
    Owed-does jobs c s rest idle can,
  )
  Owed-does (does d alive ∷ jobs) c s (live, seen, untouched, rest) (other, idle) can = (
    live,
    seen,
    All-snoc (IsUntouched store d) jobs (does c true) untouched other,
    Owed-does jobs c s rest idle can,
  )

  -- An object posts its job once.
  pub post-Good :
      (c : C) (w : System S P C)
      → store.Able c w.state
      → IsIdle store c w.pending
      → Good store Fine w
      → Good store Fine (post store c w)
  unfolding post
  post-Good c w can idle good = record {
    entries = good.entries;
    owed = Owed-does w.pending c w.state good.owed idle can;
  }

  -- What stands at a place may stand at an equal one.
  abbrev pub Moves : Type 0
  Moves =
      (p q : P) (t : Session)
      → store.places.same p q ≡ true
      → Entry store Fine p (some t)
      → Entry store Fine q (some t)

  module _ (moves : Moves) (p : P) (t u : Session) (s : S)
      (found : store.look p s ≡ some (some t)) where
    put-Stands : (q : P) → Stands store Fine q s → Stands store Fine q (store.put p u s)
    put-Stands q (t', there) =
        let looked = store.look-put q p t u s found in
        elim (Bool-cases (store.places.same p q)) [
          | inl hit ↦ (u, looked ∙ rw hit refl)
          | inr miss ↦ (t', looked ∙ rw miss there)
        ]

    pub put-Entries :
        Entry store Fine p (some u) → Entries store Fine s → Entries store Fine (store.put p u s)
    put-Entries fine entries q v there =
        let looked = store.look-put q p t u s found in
        elim (Bool-cases (store.places.same p q)) [
          | inl hit ↦
              let here : some u ≡ v = ground (arith, looked, hit, there) in
              subst (Entry store Fine q) here (moves p q u hit fine)
          | inr miss ↦ entries q v (ground (arith, looked, miss, there))
        ]

    put_here : Stands store Fine p (store.put p u s)
    put_here = (u, store.look-put p p t u s found ∙ rw (store.places.same_refl p) refl)

  abbrev pub taken : Session → Session
  taken u = record u { posted = [] }

  -- A callback that has its session post at most one job, while no job empties its place.
  pub settle-Good :
      Moves
      → (p : P) (t u : Session) (w : System S P C) → store.look p w.state ≡ some (some t)
      → IsQuiet store p w.pending
      → Entry store Fine p (some (taken u))
      → (u.posted ≡ []) ⊎ ((job : Posted) × (u.posted ≡ job ∷ []))
      → Good store Fine w
      → Good store Fine (settle store p u w)
  unfolding settle
  settle-Good moves p t u w found quiet fine posted good =
      let owed =
        Owed-Stands w.pending w.state (store.put p (taken u) w.state)
          (put-Stands moves p t (taken u) w.state found) (λ c. store.able_put c p (taken u) w.state)
          good.owed in
      record {
        entries = put-Entries moves p t (taken u) w.state found fine good.entries;
        owed = elim posted [
          | inl none_posted ↦ rw (none_posted, append-nil w.pending) owed
          | inr (job, one) ↦ rw one (
              Owed-closes w.pending p (store.put p (taken u) w.state) owed quiet
                (put_here moves p t (taken u) w.state found))
        ];
      }

  -- What a callback comes to for the session at a place: it stays one that may stand there, and has
  -- posted at most one job; or the exception is for what could not be set up or sent.
  abbrev pub Comes : P → Result Session → Type 0
  Comes p (ok u) =
      Entry store Fine p (some (taken u))
      × ((u.posted ≡ []) ⊎ ((job : Posted) × (u.posted ≡ job ∷ [])))
  Comes p (throw e) = e ≡ runtime_error

  pub callback-Good :
      Moves
      → (p : P) (t : Session) (r : Result Session) (w : System S P C)
      → store.look p w.state ≡ some (some t)
      → IsQuiet store p w.pending
      → Comes p r
      → Good store Fine w
      → GoodResult store Fine (callback store p r w)
  unfolding callback
  callback-Good moves p t (ok u) w found quiet (fine, posted) good =
      settle-Good moves p t u w found quiet fine posted good
  callback-Good moves p t (throw e) w found quiet comes good = comes
