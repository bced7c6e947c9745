-- ===== src/Listener/Closing.antt =====
-- session.cpp and listener.cpp: how an inbound session that fails leaves its listener.
use wshttp.Prelude.{ℕ, ◌≡◌, refl, false, none, some, List, [], ◌∷◌, if◌then◌else◌, arith}
use wshttp.Prelude.Outcome.{ok}
use wshttp.Maps.{find}
use wshttp.Address.Ip.{IpAddress, equal}
use wshttp.Address.Ip.Keys.{ip_key}
use wshttp.Address.Ip.Coherent.{AreCoherent, path_to_string-AreCoherent}
use wshttp.Stream.{inbound}
use wshttp.Session.{Session, Http2, Posted, listener_close_session}
use wshttp.Session.Hooks.{close_session}
use wshttp.Session.Setup.{Net, event_cb}
use wshttp.Session.Transfer.{Driver, read_cb}
use wshttp.Listener.{Listener}
use wshttp.Listener.Sessions.{IsKeyed, run_posted, close_own_session}

-- The loop runs the jobs of a session in the order in which they were posted.
abbrev pub run_jobs : List Posted → Listener → Listener
run_jobs [] l = l
run_jobs (job ∷ jobs) l = run_jobs jobs (run_posted job l)

close_session_posts :
    (s : Session)
    → s.dir ≡ inbound
    → s.posted ≡ []
    → (close_session s).posted ≡ listener_close_session s.ends.remote ∷ []
unfolding close_session
close_session_posts s d p = ground (arith, d, p)

-- Where the connection of an inbound session ends or fails, or where nghttp2 refuses the input of one
-- that has been configured, the session asks to be closed; and once the loop has run the jobs that it
-- posted, the listener has no entry for it, and still all its other sessions. Both ends of the
-- session must be printable.
pub failed_session_leaves :
    (net : Net) (d : Driver) (alpn : List ℕ) (l : Listener) (k j : IpAddress) (s : Session)
    → IsKeyed l
    → find k l.sessions ≡ some (some s)
    → s.dir ≡ inbound
    → s.posted ≡ []
    → AreCoherent s.ends
    → (s' : Session) × (event_cb net d s false alpn ≡ ok s')
      × ((h : Http2) → s.http2 ≡ some h → d.mem_recv s ≡ (s, false) → read_cb d s ≡ ok s')
      × (find j (run_jobs s'.posted l).sessions ≡ (if equal k j then none else find j l.sessions))
unfolding event_cb read_cb
failed_session_leaves net d alpn l k j s keyed found dir posted coherent =
    let (msg, printed) =
      (path_to_string-AreCoherent net.big_endian net.printer s.ends).0 coherent in
    (
      close_session s,
      rw (event_cb, printed) refl,
      (λ h configured refused. ground (arith, configured, refused)),
      rw (close_session_posts s dir posted) (close_own_session l k j s keyed found),
    )
