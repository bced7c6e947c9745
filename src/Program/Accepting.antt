-- ===== src/Program/Accepting.antt =====
-- endpoint.hpp and listener.cpp: what a connection changes of the program.
use wshttp.Prelude.{
  ℕ, ◌≡◌, refl, sym, subst, ◌∙◌, inl, inr, true, false, Option, none, some, List, [], ◌∷◌, arith,
  Bool-cases, nat_eqb, nat_eqb_iff,
}
use wshttp.Prelude.Outcome.{ok, Result-cases}
use wshttp.Maps.{find, nat_key}
use wshttp.Maps.Laws.{find_same}
use wshttp.Address.Ip.{IpAddress, Sockaddr, equal, of_sockaddr}
use wshttp.Address.Ip.Keys.{ip_key}
use wshttp.Address.Ip.Coherent.{IsInet}
use wshttp.Session.{Session}
use wshttp.Session.Setup.{Net}
use wshttp.Listener.{Listener, accept_cb, create_inbound_session}
use wshttp.Listener.Sessions.{create_inbound_session_lem}
use wshttp.Server.{LocalInet}
use wshttp.Server.Keeping
use wshttp.Server.Accepting.{make_inbound-Made, inet-IsCoherent, created-Entries, created-throws}
use wshttp.Endpoint.{Endpoint}
use wshttp.Owned.{Job, closes, does, become, IsQuiet}
use wshttp.Owned.Keeping.{Entry, Entries, Change, become-Good}
use wshttp.Program.{Place, inbound_at, outbound_at, look, change_entry}
use wshttp.Program.Places.{program, same_place, place_key, Able-change_entry}
use wshttp.Program.Tables.{find-change_entry}
use wshttp.Program.Steps.{Running, accept, after}
use wshttp.Program.Keeping.{Fine, Whole, WholeResult}
use wshttp.Program.Growing.{change_entry-OnPort}

-- The same place, spelt otherwise, is as quiet.
IsQuiet-same :
    (port q : ℕ) (remote a : IpAddress) (jobs : List (Job Place ℕ))
    → same_place (inbound_at port remote) (inbound_at q a) ≡ true
    → IsQuiet program (inbound_at port remote) jobs
    → IsQuiet program (inbound_at q a) jobs
IsQuiet-same port q remote a [] same quiet = tt
IsQuiet-same port q remote a (closes p alive ∷ jobs) same (apart, quiet) = (
  sym (place_key.same_left (inbound_at port remote) (inbound_at q a) p same) ∙ apart,
  IsQuiet-same port q remote a jobs same quiet,
)
IsQuiet-same port q remote a (does d alive ∷ jobs) same (apart, quiet) =
    let ports : port ≡ q = (nat_eqb_iff port q).0 (ground (arith, same)) in
    (subst (λ x. nat_eqb d x ≡ false) ports apart, IsQuiet-same port q remote a jobs same quiet)

-- The sessions of a listener, in the program and on their own.
pub inner-Entries :
    (port : ℕ) (l : Listener) (e : Endpoint)
    → find port e.listeners ≡ some (some l)
    → Entries program Fine e
    → Keeping.Entries l.sessions
unfolding look
inner-Entries port l e found entries a none there =
    entries (inbound_at port a) none (rw found there)
inner-Entries port l e found entries a (some t) there =
    let (own, sound) = entries (inbound_at port a) (some t) (rw found there) in
    (ground (arith, own), sound)

pub outer-Entry :
    (port : ℕ) (a : IpAddress) (v : Option Session)
    → Keeping.Entry a v
    → Entry program Fine (inbound_at port a) v
outer-Entry port a none entry = entry
outer-Entry port a (some t) (own, sound) = (rw (nat_key.same_refl port) own, sound)

create_inbound_session-local :
    (net : Net) (remote : IpAddress) (l : Listener)
    → (create_inbound_session net remote l).0.local ≡ l.local
unfolding create_inbound_session
create_inbound_session-local net remote l = ground arith

-- The listener after the connection.
abbrev pub created : Net → IpAddress → Listener → Listener
created net remote l = (create_inbound_session net remote l).0

abbrev pub accepted : ℕ → Net → IpAddress → Endpoint → Endpoint
accepted port net remote e = record e {
  listeners = change_entry port (created net remote) e.listeners;
}

pub accept_change :
    (port : ℕ) (l : Listener) (net : Net) (name : Sockaddr) (remote : IpAddress) (w : Running)
    → find port w.state.listeners ≡ some (some l)
    → of_sockaddr net.big_endian name ≡ ok remote
    → accept port net name w
      ≡ after (accepted port net remote w.state, (create_inbound_session net remote l).1) w
unfolding accept accept_cb change_entry
accept_change port l net name remote w found made =
    rw (accept, found, accept_cb, made, change_entry) refl

accepted-Change :
    (port : ℕ) (l : Listener) (net : Net) (remote : IpAddress) (w : Running) (p : Place)
    → find port w.state.listeners ≡ some (some l)
    → IsQuiet program (inbound_at port remote) w.pending
    → Keeping.Entries (created net remote l).sessions
    → Change program Fine w.pending w.state (accepted port net remote w.state) p
unfolding look
accepted-Change port l net remote w (outbound_at n h) found quiet entries = inl refl
accepted-Change port l net remote w (inbound_at q a) found quiet entries =
    let changed = find-change_entry port q (created net remote) w.state.listeners in
    let looked = (create_inbound_session_lem net remote a l).0 in
    elim (Bool-cases (nat_eqb port q)) [
      | inr other ↦ inl (rw (changed, other) refl)
      | inl hit ↦
          let there : find q w.state.listeners ≡ some (some l) =
            sym (find_same port q w.state.listeners hit) ∙ found in
          elim (Bool-cases (equal remote a)) [
            | inr apart ↦ inl (rw (changed, hit, there) (looked ∙ rw apart refl))
            | inl same ↦ inr (
              IsQuiet-same port q remote a w.pending (rw (hit, same) refl) quiet,
              λ v stands. outer-Entry q a v (entries a v (rw (changed, hit, there) at stands)),
            )
          ]
    ]

pub accept-Whole :
    (port : ℕ) (l : Listener) (net : Net) (name : Sockaddr) (remote : IpAddress) (w : Running)
    → find port w.state.listeners ≡ some (some l)
    → IsInet name
    → LocalInet net
    → of_sockaddr net.big_endian name ≡ ok remote
    → IsQuiet program (inbound_at port remote) w.pending
    → Whole w
    → WholeResult (accept port net name w)
unfolding become
accept-Whole port l net name remote w found is_inet local made quiet whole =
    let built = make_inbound-Made net remote (inet-IsCoherent net name remote is_inet made) local in
    let inner = inner-Entries port l w.state found whole.good.entries in
    elim (Result-cases (create_inbound_session net remote l).1) [
      | inl (e, thrown) ↦
          rw (accept_change port l net name remote w found made, thrown)
            (created-throws net remote l e built thrown)
      | inr (_, returned) ↦
          rw (accept_change port l net name remote w found made, returned)
            (record {
              good =
                  become-Good program Fine (accepted port net remote w.state) w
                    (λ p.
                      accepted-Change port l net remote w p found quiet
                        (created-Entries net remote l built inner returned))
                    (λ d.
                      Able-change_entry d port (created net remote) w.state
                        (create_inbound_session-local net remote))
                    whole.good;
              sane =
                  change_entry-OnPort port (created net remote) w.state.listeners
                    (create_inbound_session-local net remote) whole.sane;
            })
    ]
