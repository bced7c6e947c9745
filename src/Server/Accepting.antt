-- ===== src/Server/Accepting.antt =====
-- listener.cpp and session.cpp: what a new connection does to a server.
use wshttp.Prelude.{
  ◌≡◌, refl, sym, subst, ◌∙◌, ◌⊎◌, inl, inr, Bool, some, List, [], ◌∷◌, All, arith, Bool-cases,
  Option-cases,
}
use wshttp.Prelude.Outcome.{Exception, Result, ok, throw, runtime_error, Result-cases}
use wshttp.Maps.{find, nat_key}
use wshttp.Address.Ip.{IpAddress, Sockaddr, equal, of_sockaddr, to_string, inet, inet6, other}
use wshttp.Address.Ip.Keys.{ip_key}
use wshttp.Address.Ip.Coherent.{IsCoherent, IsInet, of_sockaddr-IsCoherent, prints}
use wshttp.Session.{Session, new_session}
use wshttp.Session.Setup.{Net, init_internals_inbound, new_ssl, local_address}
use wshttp.Listener.{Listener, Sessions, accept_cb, create_inbound_session, make_inbound}
use wshttp.Listener.Sessions.{create_inbound_session_lem}
use wshttp.Server.{Job, Server, outlived, accept, IsQuiet, LocalInet}
use wshttp.Server.Keeping.{Sound, Entry, Entries, Owed, Good, GoodResult}

-- What the constructor of a session comes to.
abbrev pub Made : IpAddress → Result Session → Type 0
Made remote (ok t) = (t.ends.remote ≡ remote) × Sound t
Made remote (throw e) = e ≡ runtime_error

pub inet-IsCoherent :
    (net : Net) (name : Sockaddr) (a : IpAddress)
    → IsInet name
    → of_sockaddr net.big_endian name ≡ ok a
    → IsCoherent a
inet-IsCoherent net name a is_inet made =
    (of_sockaddr-IsCoherent net.big_endian net.printer name a made).0.1 is_inet

inet_made :
    (big_endian : Bool) (name : Sockaddr)
    → IsInet name
    → (a : IpAddress) × (of_sockaddr big_endian name ≡ ok a)
unfolding of_sockaddr
inet_made big_endian (inet addr port) holds = (_, refl)
inet_made big_endian (inet6 addr port) holds = absurd holds
inet_made big_endian (other family) holds = absurd holds

local_address-inet :
    (net : Net) (remote : IpAddress)
    → IsCoherent remote
    → LocalInet net
    → ((a : IpAddress) × (local_address net net.bev_fd (to_string net.big_endian net.printer remote)
          ≡ ok a)
        × IsCoherent a)
      ⊎ (local_address net net.bev_fd (to_string net.big_endian net.printer remote)
          ≡ throw runtime_error)
unfolding local_address
local_address-inet net remote coherent local = elim (Option-cases (net.local_name net.bev_fd)) [
  | inl unknown ↦
      let (text, printed) = prints net.big_endian net.printer remote coherent in
      inr (rw (local_address, unknown, printed) refl)
  | inr (name, known) ↦
      let (a, made) = inet_made net.big_endian name (local name known) in
      inl (a, rw (local_address, known) made, inet-IsCoherent net name a (local name known) made)
]

pub make_inbound-Made :
    (net : Net) (remote : IpAddress)
    → IsCoherent remote
    → LocalInet net
    → Made remote (make_inbound net remote)
unfolding make_inbound init_internals_inbound new_ssl new_session find
make_inbound-Made net remote coherent local = elim (Bool-cases net.ssl_made) [
  | inr no_ssl ↦ rw (make_inbound, init_internals_inbound, new_ssl, no_ssl) refl
  | inl ssl ↦ elim (Bool-cases net.bufferevent_made) [
    | inr no_bev ↦ rw (make_inbound, init_internals_inbound, new_ssl, ssl, no_bev) refl
    | inl bev ↦ elim (Bool-cases (net.nodelay_set net.bev_fd)) [
      | inr delayed ↦ rw (make_inbound, init_internals_inbound, new_ssl, ssl, bev, delayed) refl
      | inl set ↦ elim (local_address-inet net remote coherent local) [
        | inr unknown ↦
            rw (make_inbound, init_internals_inbound, new_ssl, ssl, bev, set, unknown) refl
        | inl (a, known, fine) ↦
            rw (make_inbound, init_internals_inbound, new_ssl, ssl, bev, set, known)
              (
                refl,
                record {
                  printable = (fine, coherent);
                  settled = refl;
                  stage = inl (record {
                    is_inbound = refl;
                    same_ends = refl;
                    sound = λ k v e. ground (arith, e);
                    quiet = refl;
                  });
                },
              )
      ]
    ]
  ]
]

-- Jobs of other sessions are left alone.
outlived-IsQuiet :
    (key : IpAddress) (m : Sessions) (jobs : List Job)
    → IsQuiet key jobs
    → IsQuiet key (outlived m jobs)
unfolding outlived
outlived-IsQuiet key m [] quiet = tt
outlived-IsQuiet key m (job ∷ jobs) (apart, others) = (apart, outlived-IsQuiet key m jobs others)

outlived-Owed :
    (jobs : List Job) (m m' : Sessions)
    → All (λ (job : Job). find job.key m' ≡ find job.key m) jobs
    → Owed jobs m
    → Owed (outlived m' jobs) m'
unfolding outlived
outlived-Owed [] m m' same owed = tt
outlived-Owed (job ∷ jobs) m m' (here, there) (alive, (t, found), quiet, rest) = (
  rw (alive, here, found) refl,
  (t, here ∙ found),
  outlived-IsQuiet job.key m' jobs quiet,
  outlived-Owed jobs m m' there rest,
)

-- The jobs' sessions stand where they stood.
others_found :
    (net : Net) (remote : IpAddress) (l : Listener) (jobs : List Job)
    → IsQuiet remote jobs
    → All
        (λ (job : Job).
          find job.key (create_inbound_session net remote l).0.sessions ≡ find job.key l.sessions)
        jobs
others_found net remote l [] quiet = tt
others_found net remote l (job ∷ jobs) (apart, others) = (
  (create_inbound_session_lem net remote job.key l).0 ∙ rw apart refl,
  others_found net remote l jobs others,
)

-- The table after a connection that threw nothing.
pub created-Entries :
    (net : Net) (remote : IpAddress) (l : Listener)
    → Made remote (make_inbound net remote)
    → Entries l.sessions
    → (create_inbound_session net remote l).1 ≡ ok tt
    → Entries (create_inbound_session net remote l).0.sessions
created-Entries net remote l made entries returned key v found =
    let (looked, outcome) = create_inbound_session_lem net remote key l in
    elim (Bool-cases (equal remote key)) [
      | inr miss ↦ entries key v (ground (arith, looked, miss, found))
      | inl hit ↦ elim (Option-cases (find remote l.sessions)) [
        | inr (w, taken) ↦ absurd (ground (arith, looked, hit, taken, found))
        | inl free ↦ elim (Result-cases (make_inbound net remote)) [
          | inl (e, thrown) ↦ absurd (ground (arith, outcome, free, thrown, returned))
          | inr (t, did) ↦
              let same : some t ≡ v = ground (arith, looked, hit, free, did, found) in
              let (ends, sound) : Made remote (ok t) = subst (Made remote) did made in
              subst (Entry key) same (rw ends hit, sound)
        ]
      ]
    ]

pub created-throws :
    (net : Net) (remote : IpAddress) (l : Listener) (e : Exception)
    → Made remote (make_inbound net remote)
    → (create_inbound_session net remote l).1 ≡ throw e
    → e ≡ runtime_error
created-throws net remote l e made thrown =
    let outcome = (create_inbound_session_lem net remote remote l).1 in
    elim (Option-cases (find remote l.sessions)) [
      | inr (w, taken) ↦ absurd (ground (arith, outcome, taken, thrown))
      | inl free ↦ elim (Result-cases (make_inbound net remote)) [
        | inl (e', failed) ↦
            let same : e' ≡ e = ground (arith, outcome, free, failed, thrown) in
            sym same ∙ subst (Made remote) failed made
        | inr (t, did) ↦ absurd (ground (arith, outcome, free, did, thrown))
      ]
    ]

pub accept-Good :
    (net : Net) (name : Sockaddr) (remote : IpAddress) (s : Server)
    → IsInet name
    → LocalInet net
    → of_sockaddr net.big_endian name ≡ ok remote
    → IsQuiet remote s.pending
    → Good s
    → GoodResult (accept net name s)
unfolding accept accept_cb
accept-Good net name remote s is_inet local made quiet good =
    let built = make_inbound-Made net remote (inet-IsCoherent net name remote is_inet made) local in
    elim (Result-cases (create_inbound_session net remote s.listener).1) [
      | inl (e, thrown) ↦
          rw (accept, accept_cb, made, thrown) (created-throws net remote s.listener e built thrown)
      | inr (_, returned) ↦
          rw (accept, accept_cb, made, returned)
            (record {
              entries = created-Entries net remote s.listener built good.entries returned;
              owed =
                  outlived-Owed s.pending s.listener.sessions _
                    (others_found net remote s.listener s.pending quiet) good.owed;
            })
    ]
