-- ===== src/Server/Leaving.antt =====
-- listener.cpp, session.cpp and loop.cpp: how a session whose connection fails leaves its server.
use wshttp.Prelude.{
  ℕ, ◌≡◌, refl, subst, ap, ◌∙◌, inl, inr, true, false, none, some, List, [], ◌∷◌, ◌++◌, arith,
  Bool-cases, if◌then◌else◌,
}
use wshttp.Prelude.Outcome.{ok}
use wshttp.Maps.{find}
use wshttp.Maps.Laws.{find-assign}
use wshttp.Address.Ip.{IpAddress, equal}
use wshttp.Address.Ip.Keys.{ip_key}
use wshttp.Address.Ip.Coherent.{path_to_string-AreCoherent}
use wshttp.Session.{Session, Posted, listener_close_session}
use wshttp.Session.Connection.Stages.{Stage, taken}
use wshttp.Session.Connection.{close_inbound}
use wshttp.Session.Transfer.{Driver}
use wshttp.Session.Setup.{Net, event_cb}
use wshttp.Server.{Job, Server, settle, callback, pass, IsQuiet}
use wshttp.Server.Keeping.{Good, Sound, callback-Good}
use wshttp.Server.Running.{Stage-inbound}
use wshttp.Server.Progress.{waits, waiting_sessions_leave}

-- One more job waits.
waits_snoc :
    (key j : IpAddress) (jobs : List Job)
    → waits key (jobs ++ record { key = j; alive = true } ∷ [])
      ≡ (if equal j key then true else waits key jobs)
waits_snoc key j [] = refl
waits_snoc key j (job ∷ jobs) = ground (arith, waits_snoc key j jobs)

-- A session that has asked to be closed.
abbrev asking : Session → Session
asking t = record t { posted = t.posted ++ listener_close_session t.ends.remote ∷ [] }

-- A failed connection makes the session ask to be closed.
failure_asks :
    (net : Net) (d : Driver) (alpn : List ℕ) (t : Session)
    → Sound t
    → event_cb net d t false alpn ≡ ok (asking t)
unfolding event_cb
failure_asks net d alpn t sound =
    let (msg, shown) =
      (path_to_string-AreCoherent net.big_endian net.printer t.ends).0 sound.printable in
    rw (event_cb, shown, close_inbound t (Stage-inbound t sound.stage)) refl

-- The session as it was, once its job is taken.
taken_asking : (t : Session) → t.posted ≡ [] → t ≡ taken (asking t)
taken_asking t settled = ap (λ jobs. with_posted jobs) settled
  where
    with_posted : List Posted → Session
    with_posted jobs = record t { posted = jobs }

settle-asking :
    (key : IpAddress) (t : Session) (s : Server)
    → find key s.listener.sessions ≡ some (some t)
    → IsQuiet key s.pending
    → Good s
    → Good (settle key (asking t) s)
unfolding callback
settle-asking key t s found quiet good =
    let sound = (good.entries key (some t) found).1 in
    callback-Good key t (ok (asking t)) s found quiet
      (subst (Stage t.ends) (taken_asking t sound.settled) sound.stage) (refl, inr refl) good

asking-waits :
    (key j : IpAddress) (t : Session) (s : Server)
    → t.posted ≡ []
    → waits j (settle key (asking t) s).pending ≡ (if equal key j then true else waits j s.pending)
unfolding settle
asking-waits key j t s settled = rw settled (waits_snoc j key s.pending)

-- The other sessions stand where they stood.
asking-find :
    (key j : IpAddress) (t : Session) (s : Server)
    → find key s.listener.sessions ≡ some (some t)
    → equal key j ≡ false
    → find j (settle key (asking t) s).listener.sessions ≡ find j s.listener.sessions
unfolding settle
asking-find key j t s found miss = find-assign key j _ s.listener.sessions ∙ rw (found, miss) refl

-- In a server as its runs keep it, where the connection of a session fails or ends while no job of
-- it waits, nothing throws, and the next pass of the loop throws nothing either. After it the
-- session is gone, and so are those that had asked to be closed before; every other one is still
-- there, and no job waits.
failing_session_leaves :
    (net : Net) (d : Driver) (alpn : List ℕ) (key j : IpAddress) (t : Session) (s : Server)
    → find key s.listener.sessions ≡ some (some t)
    → IsQuiet key s.pending
    → Good s
    → (s' : Server) × (callback key (event_cb net d t false alpn) s ≡ ok s')
      × ((s'' : Server) × (pass s' ≡ ok s'')
          × (s''.pending ≡ [])
          × (find j s''.listener.sessions ≡ (
              if equal key j
              then none
              else if waits j s.pending
              then none
              else find j s.listener.sessions)))
unfolding callback
failing_session_leaves net d alpn key j t s found quiet good =
    let sound = (good.entries key (some t) found).1 in
    let (s'', ran, empty, _, left) =
      waiting_sessions_leave (settle key (asking t) s) (settle-asking key t s found quiet good) in
    (
      settle key (asking t) s,
      rw (failure_asks net d alpn t sound) refl,
      (
        s'',
        ran,
        empty,
        elim (Bool-cases (equal key j)) [
          | inl hit ↦ left j ∙ rw (asking-waits key j t s sound.settled, hit) refl
          | inr miss ↦
              left j
              ∙ rw (asking-waits key j t s sound.settled, asking-find key j t s found miss, miss)
                  refl
        ],
      ),
    )
