-- ===== src/Server/Running.antt =====
-- listener.cpp, session.cpp and loop.cpp: whole runs of a server, and what goes wrong off its terms.
use wshttp.Prelude.{◌≡◌, refl, sym, subst, inl, inr, none, some, [], arith}
use wshttp.Prelude.Outcome.{Result, ok}
use wshttp.Maps.{find}
use wshttp.Address.Ip.Keys.{ip_key}
use wshttp.Stream.{inbound}
use wshttp.Session.{Session, Http2}
use wshttp.Session.Hooks.{Environment}
use wshttp.Session.Connection.{Inv}
use wshttp.Session.Connection.Life.{Fresh}
use wshttp.Session.Connection.Closing.{event_cb-Asks, react-Asks}
use wshttp.Session.Connection.Stages.{Stage, event-Comes, react-Comes}
use wshttp.Listener.{close_all}
use wshttp.Server.{
  Server, Step, accepts, event, input, passes, shuts, shut, outlived, Reach, here, later,
}
use wshttp.Server.Keeping.{Good, GoodResult, callback-Good}
use wshttp.Server.Progress.{pass-Good}
use wshttp.Server.Accepting.{accept-Good}

-- A session without its connection has not been configured, and one with it has.
pub Stage-inbound : (t : Session) → Stage t.ends t → t.dir ≡ inbound
Stage-inbound t (inl f) = f.is_inbound
Stage-inbound t (inr inv) = inv.is_inbound

pub configured-Inv : (t : Session) (h : Http2) → t.http2 ≡ some h → Stage t.ends t → Inv t.ends t
configured-Inv t h e (inl f) = record {
  configured = (h, e);
  is_inbound = f.is_inbound;
  same_ends = refl;
  sound = f.sound;
  closes_itself = rw f.quiet tt;
}
configured-Inv t h e (inr inv) = inv

pub unset-Fresh : (t : Session) → t.http2 ≡ none → Stage t.ends t → Fresh t.ends t
unset-Fresh t e (inl f) = f
unset-Fresh t e (inr inv) = absurd (ground (arith, inv.configured.1, e))

shut-Good : (s : Server) → s.pending ≡ [] → Good (shut s)
unfolding shut outlived close_all find
shut-Good s idle = record { entries = λ key v found. ground arith; owed = rw idle tt }

Step-Good :
    (env : Environment) (s : Server) (r : Result Server) → Step env s r → Good s → GoodResult r
Step-Good env s r (accepts net name remote is_inet local made quiet e) good =
    subst GoodResult (sym e) (accept-Good net name remote s is_inet local made quiet good)
Step-Good env s r (event key t net d connected alpn calls found unset quiet e) good =
    let sound = (good.entries key (some t) found).1 in
    subst GoodResult (sym e) (
      callback-Good key t _ s found quiet
        (event-Comes env d calls t.ends sound.printable net t connected alpn
          (unset-Fresh t unset sound.stage))
        (event_cb-Asks env d calls net t connected alpn (Stage-inbound t sound.stage)) good)
Step-Good env s r (input key t h d i calls found set quiet e) good =
    let sound = (good.entries key (some t) found).1 in
    let inv = configured-Inv t h set sound.stage in
    subst GoodResult (sym e) (
      callback-Good key t _ s found quiet (react-Comes env d calls t.ends sound.printable t i inv)
        (react-Asks env d calls t i inv.is_inbound) good)
Step-Good env s r (passes e) good = subst GoodResult (sym e) (pass-Good s good)
Step-Good env s r (shuts idle e) good = subst GoodResult (sym e) (shut-Good s idle)

-- A server over any run: connections from IPv4 addresses, handshakes with whatever protocol,
-- input, output, failures, passes of the loop, and shutdowns, in any order in which a session that
-- has asked to be closed is left alone, nobody connects from its address, and the server is not shut
-- down, until the loop has run its job.
-- No step goes through a null pointer or uses a session that is gone, and none throws anything but
-- a runtime error, which ends the run. Every entry of the table is a session under its own remote
-- address, with sound streams, and the jobs that wait close different sessions of the table.
pub Reach-Good :
    (env : Environment) (s : Server) (r : Result Server) → Good s → Reach env s r → GoodResult r
Reach-Good env s r good here = good
Reach-Good env s r good (later {t} before step) =
    Step-Good env t r step (Reach-Good env s (ok t) good before)
