-- ===== src/Session/Outbound/Life.antt =====
-- session.cpp: the callbacks of libevent over the life of an outbound session.
use wshttp.Prelude.{
  ◌≡◌, refl, sym, ap, inl, inr, subst, true, Option, some, List, [], ◌∷◌, ◌++◌, All, arith,
  Bool-cases, Option-cases, leb, length, All-snoc, String, ℕ,
}
use wshttp.Prelude.Outcome.{ok, ◌>>=◌}
use wshttp.Address.Ip.{Sockaddr, inet, inet6, other, of_sockaddr}
use wshttp.Address.Ip.Coherent.{
  IsCoherent, AreCoherent, IsInet, path_to_string-AreCoherent, of_sockaddr-IsCoherent,
}
use wshttp.Stream.{outbound, Effect, Status}
use wshttp.Session.{Session, Http2, node_close_session}
use wshttp.Session.Hooks.{close_session, Environment, Event, on_event_outbound}
use wshttp.Session.Outbound.{IsNoChunk, on_event_unchanged}
use wshttp.Session.Transfer.{Driver, output_block_threshold, send_hook, send_callback}
use wshttp.Session.Setup.{
  Net, event_cb, local_address, initialize_outbound, submit_settings, send_initial_outbound,
  config_send_initial,
}
use wshttp.Session.Driving.{Input, run_inputs, Held, then-Held, Kept, run_inputs-Held}

-- One call of nghttp2 into the session: a hook, or the callback with which it sends.
pub data Call (env : Environment) (s t : Session) : Type 0 where
  hook :
      (e : Event) (effects : List Effect) (rv : Status)
      → IsNoChunk e
      → on_event_outbound env s e ≡ ok (t, effects, rv)
      → Call env s t
  sends : (bytes : List ℕ) → t ≡ (send_callback s bytes).0 → Call env s t

pub data Calls (env : Environment) : Session → Session → Type 0 where
  finished : {s : Session} → Calls env s s
  next : {s t u : Session} → Call env s t → Calls env t u → Calls env s u

-- nghttp2 changes the session by such calls only.
abbrev pub CallsOnly : Environment → Driver → Type 0
CallsOnly env d = (s : Session) → Calls env s (d.mem_recv s).0 × Calls env s (d.send s).0

-- An outbound session to the host: it has no streams, and posts no job but that which closes it.
pub record Idle (host : String) (s : Session) : Type 0 where
  pub is_outbound : s.dir ≡ outbound
  pub same_host : s.host ≡ host
  pub printable : AreCoherent s.ends
  pub no_streams : s.streams ≡ []
  pub closes_itself : All (λ job. job ≡ node_close_session host) s.posted

-- The same for one that is configured.
abbrev pub Configured : String → Session → Type 0
Configured host s = ((h : Http2) × (s.http2 ≡ some h)) × Idle host s

sends-Configured :
    (host : String) (s : Session) (bytes : List ℕ)
    → Configured host s
    → Configured host (send_callback s bytes).0
unfolding send_callback send_hook
sends-Configured host s bytes (set, idle) =
    elim (Bool-cases (leb output_block_threshold (length s.output))) [
      | inl full ↦ rw full (set, idle)
      | inr room ↦ rw room (
        set,
        record {
          is_outbound = idle.is_outbound;
          same_host = idle.same_host;
          printable = idle.printable;
          no_streams = idle.no_streams;
          closes_itself = idle.closes_itself;
        },
      )
    ]

pub Calls-Configured :
    (env : Environment) (host : String) (s t : Session)
    → Calls env s t
    → Configured host s
    → Configured host t
Calls-Configured env host s t finished h = h
Calls-Configured env host s t (next {t = u} (hook e effects rv no_chunk did) rest) (set, idle) =
    let (rv', same) = on_event_unchanged env s e idle.no_streams no_chunk in
    let unchanged : s ≡ u = ground (arith, same, did) in
    Calls-Configured env host u t rest (subst (Configured host) unchanged (set, idle))
Calls-Configured env host s t (next {t = u} (sends bytes did) rest) h =
    Calls-Configured env host u t rest (rw did (sends-Configured host s bytes h))

pub close_outbound :
    (s : Session)
    → s.dir ≡ outbound
    → close_session s ≡ record s { posted = s.posted ++ node_close_session s.host ∷ [] }
unfolding close_session
close_outbound s e = ground (arith, e)

close_session-Configured :
    (host : String) (s : Session) → Configured host s → Configured host (close_session s)
close_session-Configured host s (set, idle) =
    subst (Configured host) (sym (close_outbound s idle.is_outbound)) (
      set,
      record {
        is_outbound = idle.is_outbound;
        same_host = idle.same_host;
        printable = idle.printable;
        no_streams = idle.no_streams;
        closes_itself =
            All-snoc _ s.posted _ idle.closes_itself (ap node_close_session idle.same_host);
      },
    )

-- The address of the machine's end is an IPv4 one, where `getsockname` gives it for the descriptor.
abbrev pub LocalInet : Net → Option ℕ → Type 0
LocalInet net fd = (name : Sockaddr) → net.local_name fd ≡ some name → IsInet name

of_sockaddr-Held :
    (net : Net) (name : Sockaddr) → IsInet name → Held IsCoherent (of_sockaddr net.big_endian name)
unfolding of_sockaddr
of_sockaddr-Held net (inet addr port) holds =
    (of_sockaddr-IsCoherent net.big_endian net.printer (inet addr port) _ refl).0.1 tt
of_sockaddr-Held net (inet6 addr port) holds = absurd holds
of_sockaddr-Held net (other family) holds = absurd holds

local_address-Held :
    (net : Net) (fd : Option ℕ) (host : String)
    → LocalInet net fd
    → Held IsCoherent (local_address net fd (ok host))
unfolding local_address
local_address-Held net fd host local = elim (Option-cases (net.local_name fd)) [
  | inl unknown ↦ rw (local_address, unknown) refl
  | inr (name, known) ↦ rw (local_address, known) (of_sockaddr-Held net name (local name known))
]

module _ (env : Environment) (d : Driver) (calls : CallsOnly env d) (host : String) where
  kept : Kept (Configured host) (Configured host) d
  kept = record {
    configured = λ s h. h.0;
    printable = λ s h. h.1.printable;
    received = λ s h. Calls-Configured env host s (d.mem_recv s).0 (calls s).0 h;
    sent = λ s h. Calls-Configured env host s (d.send s).0 (calls s).1 h;
    closed = close_session-Configured host;
    left = λ s h. h;
  }

  pub initialized-Held :
      (net : Net) (s : Session)
      → LocalInet net s.fd
      → Idle host s
      → Held (Configured host) (initialize_outbound net s)
  unfolding initialize_outbound
  initialized-Held net s local idle = elim (Bool-cases (net.nodelay_set s.fd)) [
    | inr delayed ↦ rw (initialize_outbound, delayed) refl
    | inl set ↦
        rw (initialize_outbound, set)
          (then-Held IsCoherent (Configured host) (local_address net s.fd (ok s.host)) _
            (local_address-Held net s.fd s.host local)
            (λ a coherent. elim (Bool-cases net.session_made) [
              | inr refused ↦ rw refused refl
              | inl made ↦ rw made (
                (_, refl),
                record {
                  is_outbound = idle.is_outbound;
                  same_host = idle.same_host;
                  printable = (coherent, idle.printable.1);
                  no_streams = idle.no_streams;
                  closes_itself = idle.closes_itself;
                },
              )
            ]))
  ]

  pub submitted-Held :
      (net : Net) (s : Session) → Configured host s → Held (Configured host) (submit_settings net s)
  unfolding submit_settings
  submitted-Held net s (set, idle) = elim (Bool-cases net.settings_submitted) [
    | inl taken ↦
        rw (submit_settings, set.1, taken)
          (
            (_, refl),
            record {
              is_outbound = idle.is_outbound;
              same_host = idle.same_host;
              printable = idle.printable;
              no_streams = idle.no_streams;
              closes_itself = idle.closes_itself;
            },
          )
    | inr refused ↦ rw (submit_settings, set.1, refused) refl
  ]

  connected-Held :
      (net : Net) (s : Session)
      → LocalInet net s.fd
      → Idle host s
      → Held (Configured host) (event_cb net d s true [])
  unfolding event_cb config_send_initial send_initial_outbound
  connected-Held net s local idle =
      let (msg, shown) =
        (path_to_string-AreCoherent net.big_endian net.printer s.ends).0 idle.printable in
      rw (event_cb, shown, config_send_initial, idle.is_outbound)
        (then-Held (Configured host) (Configured host) (initialize_outbound net s) _
          (initialized-Held net s local idle) (submitted-Held net))

  -- An outbound session without streams, whose ends can be printed and whose own address, where
  -- `getsockname` gives it, is an IPv4 one, from the event of its connection with no protocol
  -- negotiated, over any sequence of calls by libevent, in each of which nghttp2 calls the session's
  -- hooks, though not the one for data, and its send callback in any order: every call returns, or
  -- throws a runtime error, which ends the sequence, and none goes through a null pointer. The
  -- session is configured and still has no stream, and the only jobs that it posts are those that
  -- close it itself.
  pub outbound_life-Held :
      (net : Net) (s : Session) (is' : List Input)
      → LocalInet net s.fd
      → Idle host s
      → Held (Configured host) (event_cb net d s true [] >>= λ t. run_inputs d t is')
  outbound_life-Held net s is' local idle =
      then-Held (Configured host) (Configured host) (event_cb net d s true []) _
        (connected-Held net s local idle) (λ t h. run_inputs-Held (Configured host) d kept t is' h)
