-- ===== src/Owned/Leaving.antt =====
-- session.cpp and loop.cpp: how a session that asks to be closed leaves the part that owns it.
use wshttp.Prelude.{
  ◌≡◌, refl, ◌∙◌, inl, inr, true, false, none, some, List, [], ◌∷◌, ◌++◌, arith, Bool-cases,
  if◌then◌else◌,
}
use wshttp.Prelude.Outcome.{ok}
use wshttp.Session.{Session, Posted}
use wshttp.Owned.{Store, Job, closes, does, System, settle, pass, IsQuiet}
use wshttp.Owned.Keeping.{Entry, Good}
use wshttp.Owned.Posting.{Moves, settle-Good, taken}
use wshttp.Owned.Passing.{emptied, pass_leaves}

module _ {ℓ} {S : Type ℓ} {P C : Type 0} (store : Store S P C) (Fine : P → Session → Type 0) where
  -- One more job waits.
  emptied_snoc :
      (p q : P) (jobs : List (Job P C))
      → emptied store Fine q (jobs ++ closes p true ∷ [])
        ≡ (if store.places.same p q then true else emptied store Fine q jobs)
  emptied_snoc p q [] = refl
  emptied_snoc p q (closes r alive ∷ jobs) = ground (arith, emptied_snoc p q jobs)
  emptied_snoc p q (does c alive ∷ jobs) = ground (arith, emptied_snoc p q jobs)

  emptied-settle :
      (p q : P) (u : Session) (job : Posted) (w : System S P C)
      → u.posted ≡ job ∷ []
      → emptied store Fine q (settle store p u w).pending
        ≡ (if store.places.same p q then true else emptied store Fine q w.pending)
  unfolding settle
  emptied-settle p q u job w posted = rw posted (emptied_snoc p q w.pending)

  settle_looks :
      (p q : P) (t u : Session) (w : System S P C)
      → store.look p w.state ≡ some (some t)
      → store.places.same p q ≡ false
      → store.look q (settle store p u w).state ≡ store.look q w.state
  unfolding settle
  settle_looks p q t u w found other =
      store.look-put q p t (record u { posted = [] }) w.state found ∙ rw other refl

  -- A session that has asked to be closed is gone when the loop has made its pass, as are those that
  -- had asked before; every other one stands where it stood.
  pub asked_leaves :
      Moves store Fine
      → (p : P) (t u : Session) (job : Posted) (w : System S P C)
      → store.look p w.state ≡ some (some t)
      → IsQuiet store p w.pending
      → Entry store Fine p (some (taken store Fine u))
      → u.posted ≡ job ∷ []
      → Good store Fine w
      → (x : System S P C) × (pass store (settle store p u w) ≡ ok x)
        × (x.pending ≡ [])
        × ((q : P)
            → store.look q x.state ≡ (
                if store.places.same p q
                then none
                else if emptied store Fine q w.pending
                then none
                else store.look q w.state))
  asked_leaves moves p t u job w found quiet fine posted good =
      let good' = settle-Good store Fine moves p t u w found quiet fine (inr (job, posted)) good in
      let (x, ran, idle, _, left) = pass_leaves store Fine (settle store p u w) good' in
      (
        x,
        ran,
        idle,
        λ q.
            let waits = emptied-settle p q u job w posted in
            elim (Bool-cases (store.places.same p q)) [
              | inl hit ↦ left q ∙ rw (waits, hit) refl
              | inr miss ↦ left q ∙ rw (waits, miss, settle_looks p q t u w found miss) refl
            ],
      )
