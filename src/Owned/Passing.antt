-- ===== src/Owned/Passing.antt =====
-- session.cpp and loop.cpp: what the loop makes of the jobs of a part that owns sessions.
use wshttp.Prelude.{
  ◌≡◌, refl, sym, ap, subst, ◌∙◌, inl, inr, Bool, true, false, none, some, List, [], ◌∷◌, All,
  arith, Bool-cases, if◌then◌else◌,
}
use wshttp.Prelude.Outcome.{Result, Result-cases, ok, ◌>>=◌}
use wshttp.Session.{Session}
use wshttp.Owned.{
  IsOther, IsUntouched, Store, Job, closes, does, System, run_job, run_jobs, pass, pointee,
}
use wshttp.Owned.Keeping.{Entries, Stands, Owed, Good}

module _ {ℓ} {S : Type ℓ} {P C : Type 0} (store : Store S P C) (Fine : P → Session → Type 0) where
  -- The job empties the place.
  abbrev pub empties : P → Job P C → Bool
  empties p (closes q alive) = store.places.same q p
  empties p (does c alive) = store.touches c p

  -- One of the jobs does.
  abbrev pub emptied : P → List (Job P C) → Bool
  emptied p [] = false
  emptied p (job ∷ jobs) = if empties p job then true else emptied p jobs

  -- What a job leaves that empties its places, and nothing else.
  abbrev Emptied : Job P C → (s s' : S) → Type 0
  Emptied job s s' = (p : P) → store.look p s' ≡ (if empties p job then none else store.look p s)

  Emptied-Entries :
      (job : Job P C) (s s' : S) → Emptied job s s' → Entries store Fine s → Entries store Fine s'
  Emptied-Entries job s s' left entries p v found = entries p v (ground (arith, left p, found))

  stays :
      (job : Job P C) (s s' : S) (p : P)
      → Emptied job s s'
      → empties p job ≡ false
      → Stands store Fine p s
      → Stands store Fine p s'
  stays job s s' p left other (t, found) = (t, left p ∙ rw other found)

  -- What the jobs that wait behind a session's job point to stays when it has run.
  closes-Owed :
      (q : P) (alive : Bool) (jobs : List (Job P C)) (s s' : S)
      → Emptied (closes q alive) s s'
      → ((c : C) → store.Able c s → store.Able c s')
      → All (IsOther store q) jobs
      → Owed store Fine jobs s
      → Owed store Fine jobs s'
  closes-Owed q alive [] s s' left able others owed = tt
  closes-Owed q alive (closes p live ∷ jobs) s s' left able (other, others)
        (is_live, there, apart, rest) =
      (
        is_live,
        stays (closes q alive) s s' p left other there,
        apart,
        closes-Owed q alive jobs s s' left able others rest,
      )
  closes-Owed q alive (does c live ∷ jobs) s s' left able (_, others) (is_live, can, apart, rest) =
      (is_live, able c can, apart, closes-Owed q alive jobs s s' left able others rest)

  -- And behind the job of another object.
  does-Owed :
      (c : C) (alive : Bool) (jobs : List (Job P C)) (s s' : S)
      → Emptied (does c alive) s s'
      → ((d : C) → store.parts.same c d ≡ false → store.Able d s → store.Able d s')
      → All (IsUntouched store c) jobs
      → Owed store Fine jobs s
      → Owed store Fine jobs s'
  does-Owed c alive [] s s' left able others owed = tt
  does-Owed c alive (closes p live ∷ jobs) s s' left able (other, others)
        (is_live, there, apart, rest) =
      (
        is_live,
        stays (does c alive) s s' p left other there,
        apart,
        does-Owed c alive jobs s s' left able others rest,
      )
  does-Owed c alive (does d live ∷ jobs) s s' left able (other, others)
        (is_live, can, apart, rest) =
      (is_live, able d other can, apart, does-Owed c alive jobs s s' left able others rest)

  -- The first of the jobs that wait can be run, and what it leaves.
  run_job-Owed :
      (job : Job P C) (jobs : List (Job P C)) (s : S)
      → Entries store Fine s
      → Owed store Fine (job ∷ jobs) s
      → (s' : S) × (run_job store job s ≡ ok s') × Emptied job s s' × Owed store Fine jobs s'
  unfolding run_job
  run_job-Owed (closes q alive) jobs s entries (live, (t, found), others, rest) =
      let (own, fine) = entries q (some t) found in
      let left : Emptied (closes q alive) s (store.remove (store.own q t) s) = λ p.
        store.look-remove p (store.own q t) s
        ∙ rw (store.places.same_left (store.own q t) q p own) refl in
      (
        store.remove (store.own q t) s,
        rw (run_job, live, found) refl,
        left,
        closes-Owed q alive jobs s (store.remove (store.own q t) s) left
            (λ c. store.able_remove c (store.own q t) s) others rest,
      )
  run_job-Owed (does c alive) jobs s entries (live, can, others, rest) =
      let (s', did, left, able) = store.able_perform c s can in
      (s', rw (run_job, live) did, left, does-Owed c alive jobs s s' left able others rest)

  run_jobs-Owed :
      (jobs : List (Job P C)) (s : S)
      → Entries store Fine s
      → Owed store Fine jobs s
      → (s' : S) × (run_jobs store jobs s ≡ ok s')
        × Entries store Fine s'
        × ((p : P) → store.look p s' ≡ (if emptied p jobs then none else store.look p s))
  unfolding run_jobs
  run_jobs-Owed [] s entries owed = (s, refl, entries, λ p. refl)
  run_jobs-Owed (job ∷ jobs) s entries owed =
      let (s', did, left, owed') = run_job-Owed job jobs s entries owed in
      let (s'', ran, entries', left') =
        run_jobs-Owed jobs s' (Emptied-Entries job s s' left entries) owed' in
      (s'', rw (run_jobs, did) ran, entries', λ p. ground (arith, left p, left' p))

  -- What every job keeps of the state.
  module _ (Q : S → Type 0) (removed : (q : P) (s : S) → Q s → Q (store.remove q s))
      (performed : (c : C) (s s' : S) → store.perform c s ≡ ok s' → Q s → Q s') where
    run_job_keeps : (job : Job P C) (s v : S) → run_job store job s ≡ ok v → Q s → Q v
    unfolding run_job
    run_job_keeps (does c alive) s v did holds = elim (Bool-cases alive) [
      | inl live ↦ performed c s v (ground (arith, live, did)) holds
      | inr dead ↦ absurd (ground (arith, dead, did))
    ]
    run_job_keeps (closes p alive) s v did holds = elim (Result-cases (pointee store s p alive)) [
      | inl (e, thrown) ↦ absurd (ground (arith, thrown, did))
      | inr (t, there) ↦
          let same : store.remove (store.own p t) s ≡ v = ground (arith, there, did) in
          subst Q same (removed (store.own p t) s holds)
    ]

    pub run_jobs_keep :
        (jobs : List (Job P C)) (s s' : S) → run_jobs store jobs s ≡ ok s' → Q s → Q s'
    unfolding run_jobs
    run_jobs_keep [] s s' ran holds = let same : s ≡ s' = ground (arith, ran) in subst Q same holds
    run_jobs_keep (job ∷ jobs) s s' ran holds = elim (Result-cases (run_job store job s)) [
      | inl (e, thrown) ↦ absurd (ground (arith, thrown, ran))
      | inr (v, did) ↦
          run_jobs_keep jobs v s' (sym (ap (λ (r : Result S). r >>= run_jobs store jobs) did) ∙ ran)
            (run_job_keeps job s v did holds)
    ]

    pub pass_keeps : (w v : System S P C) → pass store w ≡ ok v → Q w.state → Q v.state
    unfolding pass
    pass_keeps w v did holds = elim (Result-cases (run_jobs store w.pending w.state)) [
      | inl (e, thrown) ↦ absurd (ground (arith, thrown, did))
      | inr (s, ran) ↦
          let same : s ≡ v.state = ground (arith, ran, did) in
          subst Q same (run_jobs_keep w.pending w.state s ran holds)
    ]

  -- A pass of the loop runs every job that waits. No job is left, the places that the jobs were to
  -- empty are empty, and every other place is as it was.
  pub pass_leaves :
      (w : System S P C)
      → Good store Fine w
      → (v : System S P C) × (pass store w ≡ ok v)
        × (v.pending ≡ [])
        × Good store Fine v
        × ((p : P)
            → store.look p v.state ≡ (if emptied p w.pending then none else store.look p w.state))
  unfolding pass
  pass_leaves w good =
      let (s, ran, entries, left) = run_jobs-Owed w.pending w.state good.entries good.owed in
      (
        record { state = s; pending = [] },
        rw (pass, ran) refl,
        refl,
        record { entries = entries; owed = tt },
        left,
      )
