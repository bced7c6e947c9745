-- ===== src/Server/Keeping.antt =====
-- listener.cpp, session.cpp and loop.cpp: what every run of a server keeps.
use wshttp.Prelude.{
  ◌≡◌, refl, sym, subst, ◌∙◌, ◌⊎◌, inl, inr, true, false, Option, none, some, List, [], ◌∷◌, ◌++◌,
  All, arith, Bool-cases, All-snoc,
}
use wshttp.Prelude.Outcome.{Result, ok, throw, runtime_error}
use wshttp.Maps.{find, assign}
use wshttp.Maps.Laws.{find-assign, same_comm}
use wshttp.Address.Ip.{IpAddress, equal}
use wshttp.Address.Ip.Keys.{ip_key, equal_left, equal_refl}
use mathlib.Core.List.{append-nil}
use wshttp.Address.Ip.Coherent.{AreCoherent}
use wshttp.Session.{Session, listener_close_session}
use wshttp.Session.Connection.Stages.{Stage, Comes, taken}
use wshttp.Session.Connection.Closing.{Asks}
use wshttp.Listener.{Sessions}
use wshttp.Server.{Job, Server, settle, callback, IsQuiet}

-- A session that waits for its connection, or one that has been configured.
pub record Sound (t : Session) : Type 0 where
  pub printable : AreCoherent t.ends
  pub settled : t.posted ≡ []
  pub stage : Stage t.ends t

-- An entry of the table: no null pointer, and a session under its own address.
abbrev pub Entry : IpAddress → Option Session → Type 0
Entry key none = ⊥
Entry key (some t) = (equal t.ends.remote key ≡ true) × Sound t

abbrev pub Entries : Sessions → Type 0
Entries m = (key : IpAddress) (v : Option Session) → find key m ≡ some v → Entry key v

-- Each job that waits points to a session of the table, and no two to the same.
abbrev pub Owed : List Job → Sessions → Type 0
Owed [] m = Unit
Owed (job ∷ jobs) m =
    (job.alive ≡ true)
    × ((t : Session) × (find job.key m ≡ some (some t)))
    × IsQuiet job.key jobs
    × Owed jobs m

pub record Good (s : Server) : Type 0 where
  pub entries : Entries s.listener.sessions
  pub owed : Owed s.pending s.listener.sessions

-- Only the exception for what could not be set up or sent.
abbrev pub GoodResult : Result Server → Type 0
GoodResult (ok s) = Good s
GoodResult (throw e) = e ≡ runtime_error

-- Jobs stay owed while the entries that they name stay.
pub Owed-kept :
    (jobs : List Job) (m m' : Sessions)
    → All
        (λ (job : Job).
          (t : Session)
          → find job.key m ≡ some (some t)
          → (t' : Session) × (find job.key m' ≡ some (some t')))
        jobs
    → Owed jobs m
    → Owed jobs m'
Owed-kept [] m m' kept owed = tt
Owed-kept (job ∷ jobs) m m' (here, there) (alive, (t, found), quiet, rest) =
    (alive, here t found, quiet, Owed-kept jobs m m' there rest)

-- One more job, of a session that had none.
Owed-snoc :
    (jobs : List Job) (key : IpAddress) (t : Session) (m : Sessions)
    → Owed jobs m
    → IsQuiet key jobs
    → find key m ≡ some (some t)
    → Owed (jobs ++ record { key = key; alive = true } ∷ []) m
Owed-snoc [] key t m owed quiet found = (refl, (t, found), tt, tt)
Owed-snoc (job ∷ jobs) key t m (alive, seen, apart, rest) (other, others) found = (
  alive,
  seen,
  All-snoc (λ (j : Job). equal job.key j.key ≡ false) jobs _ apart (same_comm job.key key ∙ other),
  Owed-snoc jobs key t m rest others found,
)

-- A session is put back in its place.
assign-Entries :
    (key : IpAddress) (t u : Session) (m : Sessions)
    → find key m ≡ some (some t)
    → Entry key (some u)
    → Entries m
    → Entries (assign key (some u) m)
assign-Entries key t u m found (keyed, sound) entries key' v found' =
    let looked = find-assign key key' (some u) m in
    elim (Bool-cases (equal key key')) [
      | inl hit ↦
          let same : some u ≡ v = ground (arith, looked, found, hit, found') in
          subst (Entry key') same (equal_left u.ends.remote key key' keyed ∙ hit, sound)
      | inr miss ↦ entries key' v (ground (arith, looked, found, miss, found'))
    ]

assign_stays :
    (key : IpAddress) (t u : Session) (m : Sessions) (jobs : List Job)
    → find key m ≡ some (some t)
    → All
        (λ (job : Job).
          (t' : Session)
          → find job.key m ≡ some (some t')
          → (u' : Session) × (find job.key (assign key (some u) m) ≡ some (some u')))
        jobs
assign_stays key t u m [] found = tt
assign_stays key t u m (job ∷ jobs) found = (
  λ t' found'. elim (Bool-cases (equal key job.key)) [
    | inl hit ↦ (u, find-assign key job.key (some u) m ∙ rw (found, hit) refl)
    | inr miss ↦ (t', find-assign key job.key (some u) m ∙ rw (found, miss) found')
  ],
  assign_stays key t u m jobs found,
)

settle-Good :
    (key : IpAddress) (t u : Session) (s : Server)
    → find key s.listener.sessions ≡ some (some t)
    → IsQuiet key s.pending
    → equal u.ends.remote key ≡ true
    → Sound (record u { posted = [] })
    → (u.posted ≡ []) ⊎ (u.posted ≡ listener_close_session u.ends.remote ∷ [])
    → Good s
    → Good (settle key u s)
unfolding settle
settle-Good key t u s found quiet keyed sound asks good =
    let kept : Session = record u { posted = [] } in
    let m : Sessions = assign key (some kept) s.listener.sessions in
    let owed : Owed s.pending m =
      Owed-kept s.pending s.listener.sessions m
        (assign_stays key t kept s.listener.sessions s.pending found) good.owed in
    let there : find key m ≡ some (some kept) =
      find-assign key key (some kept) s.listener.sessions ∙ rw (found, equal_refl key) refl in
    record {
      entries = assign-Entries key t kept s.listener.sessions found (keyed, sound) good.entries;
      owed = elim asks [
        | inl quiet' ↦ rw (quiet', append-nil s.pending) owed
        | inr one ↦ rw one (Owed-snoc s.pending key kept m owed quiet there)
      ];
    }

-- What a callback comes to, for a session without posted jobs.
pub callback-Good :
    (key : IpAddress) (t : Session) (r : Result Session) (s : Server)
    → find key s.listener.sessions ≡ some (some t)
    → IsQuiet key s.pending
    → Comes t.ends r
    → Asks t r
    → Good s
    → GoodResult (callback key r s)
unfolding callback
callback-Good key t (throw e) s found quiet comes asks good = comes
callback-Good key t (ok u) s found quiet comes (ends, posted) good =
    let (keyed, before) = good.entries key (some t) found in
    settle-Good key t u s found quiet (rw ends keyed)
      (record {
        printable = rw ends before.printable;
        settled = refl;
        stage = subst (λ x. Stage x (taken u)) (sym ends) comes;
      })
      (elim posted [
        | inl same ↦ inl (same ∙ before.settled)
        | inr one ↦ inr (one ∙ rw (before.settled, ends) refl)
      ])
      good
