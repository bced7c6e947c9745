-- ===== src/Owned.antt =====
-- session.cpp and loop.cpp: a part of the program that owns sessions, with the queue of the loop in
-- which jobs wait that close them. The part is a parameter: what holds of every such part is shown
-- once, for the laws of its tables.
pub mod Keeping
pub mod Posting
pub mod Passing
pub mod Leaving
use wshttp.Prelude.{
  ◌≡◌, Bool, true, false, ◌&&◌, Option, none, some, List, [], ◌∷◌, ◌++◌, map, All, if◌then◌else◌,
}
use wshttp.Prelude.Outcome.{Result, ok, throw, dangling_access, ◌>>=◌}
use wshttp.Maps.{Key, is_some}
use wshttp.Session.{Session, Posted}

-- The tables of a part `S`, by the places `P` at which its sessions stand, and the objects `C` that
-- post jobs of their own. `own p t` is the place that the job of the session `t` at `p` empties, and
-- `touches c p` says that the job of `c` empties the place `p`. `Able c` says that `c` is there, and
-- that its job does what it is meant to do.
pub record Store {ℓ} (S : Type ℓ) (P C : Type 0) : Type (ℓ ⊔ 1) where
  pub places : Key P
  pub parts : Key C
  pub look : P → S → Option (Option Session)
  pub put : P → Session → S → S
  pub remove : P → S → S
  pub own : P → Session → P
  pub stands : C → S → Bool
  pub perform : C → S → Result S
  pub touches : C → P → Bool
  pub Able : C → S → Type 0
  pub look-put :
      (p q : P) (t u : Session) (s : S)
      → look q s ≡ some (some t)
      → look p (put q u s) ≡ (if places.same q p then some (some u) else look p s)
  pub look-remove :
      (p q : P) (s : S) → look p (remove q s) ≡ (if places.same q p then none else look p s)
  pub able_stands : (c : C) (s : S) → Able c s → stands c s ≡ true
  pub able_put : (c : C) (q : P) (u : Session) (s : S) → Able c s → Able c (put q u s)
  pub able_remove : (c : C) (q : P) (s : S) → Able c s → Able c (remove q s)
  pub able_perform :
      (c : C) (s : S)
      → Able c s
      → (s' : S) × (perform c s ≡ ok s')
        × ((p : P) → look p s' ≡ (if touches c p then none else look p s))
        × ((d : C) → parts.same c d ≡ false → Able d s → Able d s')

-- A job that waits: the lambda of a session, or of another object of the part, which holds it by a
-- plain pointer. `alive` says whether what it points to still exists.
pub data Job (P C : Type 0) : Type 0 where
  closes : (place : P) (alive : Bool) → Job P C
  does : (part : C) (alive : Bool) → Job P C

pub record System {ℓ} (S : Type ℓ) (P C : Type 0) : Type ℓ where
  pub state : S
  pub pending : List (Job P C)

abbrev pub through : Option (Option Session) → Result Session
through (some (some t)) = ok t
through (some none) = throw dangling_access
through none = throw dangling_access

module _ {ℓ} {S : Type ℓ} {P C : Type 0} (store : Store S P C) where
  -- A job that does not close the session at `p`, and one that does not empty its place either.
  abbrev pub IsOther : P → Job P C → Type 0
  IsOther p (closes q alive) = store.places.same p q ≡ false
  IsOther p (does c alive) = Unit

  abbrev pub IsApart : P → Job P C → Type 0
  IsApart p (closes q alive) = store.places.same p q ≡ false
  IsApart p (does c alive) = store.touches c p ≡ false

  -- No job that waits empties the place.
  abbrev pub IsQuiet : P → List (Job P C) → Type 0
  IsQuiet p jobs = All (IsApart p) jobs

  -- No job of the object waits.
  abbrev pub IsIdle : C → List (Job P C) → Type 0
  IsIdle c [] = Unit
  IsIdle c (closes p alive ∷ jobs) = Unit {0} × IsIdle c jobs
  IsIdle c (does d alive ∷ jobs) = (store.parts.same d c ≡ false) × IsIdle c jobs

  abbrev pub IsUntouched : C → Job P C → Type 0
  IsUntouched c (closes q alive) = store.touches c q ≡ false
  IsUntouched c (does c' alive) = store.parts.same c c' ≡ false

  -- What has gone is gone for the jobs that point to it.
  unfoldable pub outlived : S → List (Job P C) → List (Job P C)
  outlived s [] = []
  outlived s (closes p alive ∷ jobs) =
      closes p (alive && is_some (store.look p s)) ∷ outlived s jobs
  outlived s (does c alive ∷ jobs) = does c (alive && store.stands c s) ∷ outlived s jobs

  -- The tables have changed.
  unfoldable pub become : S → System S P C → System S P C
  unfolding outlived
  become s w = record { state = s; pending = outlived s w.pending }

  -- The session at `p` has come to `t`, and what it posted joins the queue.
  unfoldable pub settle : P → Session → System S P C → System S P C
  settle p t w = record {
    state = store.put p (record t { posted = [] }) w.state;
    pending = w.pending ++ map {A = Posted} {B = Job P C} (λ _. closes p true) t.posted;
  }

  -- A callback of libevent for the session at `p`.
  unfoldable pub callback : P → Result Session → System S P C → Result (System S P C)
  unfolding settle
  callback p r w = r >>= λ t. ok (settle p t w)

  -- The object `c` posts its job.
  unfoldable pub post : C → System S P C → System S P C
  post c w = record w { pending = w.pending ++ does c true ∷ [] }

  -- The session that a job points to.
  abbrev pub pointee : S → P → Bool → Result Session
  pointee s p alive = if alive then through (store.look p s) else throw dangling_access

  unfoldable pub run_job : Job P C → S → Result S
  run_job (closes p alive) s = pointee s p alive >>= λ t. ok (store.remove (store.own p t) s)
  run_job (does c alive) s = if alive then store.perform c s else throw dangling_access

  -- One job after the other.
  unfoldable pub run_jobs : List (Job P C) → S → Result S
  unfolding run_job
  run_jobs [] s = ok s
  run_jobs (job ∷ jobs) s = run_job job s >>= run_jobs jobs

  -- A pass of the loop over its queue.
  unfoldable pub pass : System S P C → Result (System S P C)
  unfolding run_jobs
  pass w = run_jobs w.pending w.state >>= λ s. ok (record { state = s; pending = [] })
