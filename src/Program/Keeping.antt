-- ===== src/Program/Keeping.antt =====
-- endpoint.cpp, listener.cpp, node.cpp and session.cpp: what every run of the program keeps.
use wshttp.Prelude.{
  ℕ, ◌≡◌, refl, sym, subst, ◌∙◌, inl, inr, true, String, Option, none, some, [], All, arith, eq_iff,
}
use wshttp.Prelude.Outcome.{Result, ok, throw, runtime_error}
use wshttp.Maps.{nat_key, string_key}
use wshttp.Address.Ip.{IpAddress}
use wshttp.Address.Ip.Keys.{ip_key, equal_left}
use wshttp.Session.{Session, listener_close_session, node_close_session}
use wshttp.Session.Hooks.{Environment}
use wshttp.Session.Driving.{Held}
use wshttp.Session.Connection.Closing.{Asks, event_cb-Asks, react-Asks}
use wshttp.Session.Connection.Stages
use wshttp.Session.Connection.Stages.{Stage, event-Comes, react-Comes}
use wshttp.Session.Outbound.Life.{Idle}
use wshttp.Session.Outbound.Asking.{Asked, event_cb-Asked, react-Asked}
use wshttp.Server.Keeping.{Sound}
use wshttp.Server.Running.{Stage-inbound, configured-Inv, unset-Fresh}
use wshttp.Listener.{Listener}
use wshttp.Endpoint.{Endpoint}
use wshttp.Owned.Keeping.{Entry, Good}
use wshttp.Owned.Posting.{Comes, Moves}
use wshttp.Program.{Place, inbound_at, outbound_at}
use wshttp.Program.Places.{program}
use wshttp.Program.Steps.{Running, Callback, accepted_event, accepted_input, made_event, made_input}

-- A session in a listener waits for its connection, or has been configured; one in a node has no
-- streams, and can be closed by its job.
abbrev pub Fine : Place → Session → Type 0
Fine (inbound_at port remote) t = Sound t
Fine (outbound_at node name) t = Idle name t × (t.posted ≡ [])

pub moves : Moves program Fine
moves (inbound_at p a) (inbound_at q b) t same (own, sound) =
    (ground (arith, same, own, equal_left t.ends.remote a b, nat_key.same_refl q), sound)
moves (outbound_at n g) (outbound_at m h) t same (own, (idle, quiet)) =
    let hosts : string_key.same g h ≡ true = ground (arith, same) in
    (
      ground (arith, same, own, string_key.same_left t.host g h, string_key.same_refl m),
      (subst (λ x. Idle x t) ((eq_iff g h).0 hosts) idle, quiet),
    )
moves (inbound_at p a) (outbound_at m h) t same entry = absurd (ground (arith, same))
moves (outbound_at n g) (inbound_at q b) t same entry = absurd (ground (arith, same))

-- What the callbacks come to, for a session in a listener,
inbound-Comes :
    (port : ℕ) (remote : IpAddress) (t : Session) (r : Result Session)
    → Entry program Fine (inbound_at port remote) (some t)
    → Stages.Comes t.ends r
    → Asks t r
    → Comes program Fine (inbound_at port remote) r
inbound-Comes port remote t (throw e) entry comes asks = comes
inbound-Comes port remote t (ok u) (own, before) comes (ends, posted) = (
  (
    rw ends own,
    record {
      printable = rw ends before.printable;
      settled = refl;
      stage = subst (λ x. Stage x (Stages.taken u)) (sym ends) comes;
    },
  ),
  elim posted [
    | inl same ↦ inl (same ∙ before.settled)
    | inr one ↦ inr (listener_close_session t.ends.remote, one ∙ rw before.settled refl)
  ],
)

-- and for one in a node.
outbound-Comes :
    (node name : String) (r : Result Session)
    → Held (Asked name) r
    → Comes program Fine (outbound_at node name) r
outbound-Comes node name (throw e) held = held
outbound-Comes node name (ok u) (idle, posted) = (
  (
    rw (idle.same_host, string_key.same_refl node) (string_key.same_refl name),
    (
      record {
        is_outbound = idle.is_outbound;
        same_host = idle.same_host;
        printable = idle.printable;
        no_streams = idle.no_streams;
        closes_itself = tt;
      },
      refl,
    ),
  ),
  elim posted [ inl quiet ↦ inl quiet | inr one ↦ inr (node_close_session name, one) ],
)

pub Callback-Comes :
    (env : Environment) (p : Place) (t : Session) (r : Result Session)
    → Entry program Fine p (some t)
    → Callback env t r p
    → Comes program Fine p r
Callback-Comes env (inbound_at port remote) t r (own, sound)
      (accepted_event _ _ net d connected alpn calls unset e) =
    rw e (
      inbound-Comes port remote t _ (own, sound)
        (event-Comes env d calls t.ends sound.printable net t connected alpn
          (unset-Fresh t unset sound.stage))
        (event_cb-Asks env d calls net t connected alpn (Stage-inbound t sound.stage)))
Callback-Comes env (inbound_at port remote) t r (own, sound)
      (accepted_input _ _ h d i calls set e) =
    let inv = configured-Inv t h set sound.stage in
    rw e (
      inbound-Comes port remote t _ (own, sound)
        (react-Comes env d calls t.ends sound.printable t i inv)
        (react-Asks env d calls t i inv.is_inbound))
Callback-Comes env (outbound_at node name) t r (own, (idle, quiet))
      (made_event _ _ net d ready alpn calls local unset e) =
    rw e (
      outbound-Comes node name _
        (event_cb-Asked env d calls name net t ready alpn local idle quiet))
Callback-Comes env (outbound_at node name) t r (own, (idle, quiet))
      (made_input _ _ h d i calls set e) =
    rw e (outbound-Comes node name _ (react-Asked env d calls name t i (((h, set), idle), quiet)))

-- Each listener is there, and on the port under which it stands.
abbrev pub OnPort : ℕ × Option Listener → Type 0
OnPort (port, some l) = l.local.port ≡ port
OnPort (port, none) = ⊥

abbrev pub Sane : Endpoint → Type 0
Sane e = All OnPort e.listeners

pub record Whole (w : Running) : Type 0 where
  pub good : Good program Fine w
  pub sane : Sane w.state

-- Only the exception for what could not be set up or sent.
abbrev pub WholeResult : Result Running → Type 0
WholeResult (ok w) = Whole w
WholeResult (throw e) = e ≡ runtime_error
