-- ===== src/Session/Outbound/Asking.antt =====
-- session.cpp: what a callback of libevent has an outbound session post.
use wshttp.Prelude.{
  ℕ, ◌≡◌, refl, sym, ap, ◌∙◌, ◌⊎◌, inl, inr, subst, Bool, ◌&&◌, ◌||◌, ◌==◌, List, [], ◌∷◌, nat_eq,
  arith, Bool-cases, length, String,
}
use wshttp.Prelude.Outcome.{Result, ok, throw}
use wshttp.Address.Ip.Coherent.{path_to_string-AreCoherent}
use wshttp.Request.{span_equal}
use wshttp.Session.{Session, node_close_session}
use wshttp.Session.Hooks.{close_session, Environment}
use wshttp.Session.Outbound.{on_event_unchanged}
use wshttp.Session.Outbound.Life.{
  Call, Calls, CallsOnly, finished, next, hook, sends, Idle, Configured, Calls-Configured,
  close_outbound, LocalInet, initialized-Held, submitted-Held,
}
use wshttp.Session.Transfer.{Driver, send_hook, send_callback}
use wshttp.Session.Setup.{
  Net, event_cb, local_address, initialize_outbound, submit_settings, send_initial_outbound,
  config_send_initial, alpn_h2,
}
use wshttp.Session.Driving.{Input, react, Held, then-Held, Kept, react-Held}

-- A configured session that has posted nothing.
abbrev pub Quiet : String → Session → Type 0
Quiet host s = Configured host s × (s.posted ≡ [])

-- A session that has posted at most the one job that closes it.
abbrev pub Asked : String → Session → Type 0
Asked host s = Idle host s × ((s.posted ≡ []) ⊎ (s.posted ≡ node_close_session host ∷ []))

send_callback-posted : (s : Session) (bytes : List ℕ) → (send_callback s bytes).0.posted ≡ s.posted
unfolding send_callback send_hook
send_callback-posted s bytes = ground arith

-- nghttp2 has the session post nothing.
Call-posted :
    (env : Environment) (host : String) (s t : Session)
    → Call env s t
    → Idle host s
    → t.posted ≡ s.posted
Call-posted env host s t (hook e effects rv no_chunk did) idle =
    let (rv', same) = on_event_unchanged env s e idle.no_streams no_chunk in
    ground (arith, same, did)
Call-posted env host s t (sends bytes did) idle = rw did (send_callback-posted s bytes)

Calls-posted :
    (env : Environment) (host : String) (s t : Session)
    → Calls env s t
    → Configured host s
    → t.posted ≡ s.posted
Calls-posted env host s t finished h = refl
Calls-posted env host s t (next {t = u} call rest) h =
    Calls-posted env host u t rest (Calls-Configured env host s u (next call finished) h)
    ∙ Call-posted env host s u call h.1

Calls-Quiet :
    (env : Environment) (host : String) (s t : Session)
    → Calls env s t
    → Quiet host s
    → Quiet host t
Calls-Quiet env host s t calls (set, quiet) =
    (Calls-Configured env host s t calls set, Calls-posted env host s t calls set ∙ quiet)

close_session-Asked :
    (host : String) (s : Session) → Idle host s → s.posted ≡ [] → Asked host (close_session s)
close_session-Asked host s idle quiet =
    subst (Asked host) (sym (close_outbound s idle.is_outbound)) (
      record {
        is_outbound = idle.is_outbound;
        same_host = idle.same_host;
        printable = idle.printable;
        no_streams = idle.no_streams;
        closes_itself = rw quiet (ap node_close_session idle.same_host, tt);
      },
      inr (rw (quiet, idle.same_host) refl),
    )

initialize_outbound-posted :
    (net : Net) (s t : Session) → initialize_outbound net s ≡ ok t → t.posted ≡ s.posted
unfolding initialize_outbound local_address
initialize_outbound-posted net s t did = ground arith

submit_settings-posted :
    (net : Net) (s t : Session) → submit_settings net s ≡ ok t → t.posted ≡ s.posted
unfolding submit_settings
submit_settings-posted net s t did = ground arith

module _ (env : Environment) (d : Driver) (calls : CallsOnly env d) (host : String) where
  kept : Kept (Quiet host) (Asked host) d
  kept = record {
    configured = λ s h. h.0.0;
    printable = λ s h. h.0.1.printable;
    received = λ s h. Calls-Quiet env host s (d.mem_recv s).0 (calls s).0 h;
    sent = λ s h. Calls-Quiet env host s (d.send s).0 (calls s).1 h;
    closed = λ s h. close_session-Asked host s h.0.1 h.1;
    left = λ s h. (h.0.1, inl h.1);
  }

  pub react-Asked : (s : Session) (i : Input) → Quiet host s → Held (Asked host) (react d s i)
  react-Asked = react-Held (Quiet host) (Asked host) d kept

  -- What holds of every session that a call returns may be added.
  and_Held :
      (P X : Session → Type 0) (r : Result Session)
      → Held P r
      → ((t : Session) → r ≡ ok t → X t)
      → Held (λ t. P t × X t) r
  and_Held P X (ok t) held more = (held, more t refl)
  and_Held P X (throw e) held more = held

  weaken_Held :
      (P Q : Session → Type 0) (r : Result Session)
      → Held P r
      → ((t : Session) → P t → Q t)
      → Held Q r
  weaken_Held P Q (ok t) held more = more t held
  weaken_Held P Q (throw e) held more = held

  configured-Asked :
      (net : Net) (s : Session)
      → LocalInet net s.fd
      → Idle host s
      → s.posted ≡ []
      → Held (Asked host) (config_send_initial net d s)
  unfolding config_send_initial send_initial_outbound
  configured-Asked net s local idle quiet =
      rw (config_send_initial, idle.is_outbound)
        (then-Held (Quiet host) (Asked host) (initialize_outbound net s) (submit_settings net)
          (and_Held (Configured host) (λ t. t.posted ≡ []) (initialize_outbound net s)
            (initialized-Held env d calls host net s local idle)
            (λ t did. initialize_outbound-posted net s t did ∙ quiet))
          (λ t (set, none_yet).
            weaken_Held (Quiet host) (Asked host) (submit_settings net t)
              (and_Held (Configured host) (λ u. u.posted ≡ []) (submit_settings net t)
                (submitted-Held env d calls host net t set)
                (λ u did. submit_settings-posted net t u did ∙ none_yet))
              (λ u h. (h.0.1, inl h.1))))

  pub event_cb-Asked :
      (net : Net) (s : Session) (ready : Bool) (alpn : List ℕ)
      → LocalInet net s.fd
      → Idle host s
      → s.posted ≡ []
      → Held (Asked host) (event_cb net d s ready alpn)
  unfolding event_cb
  event_cb-Asked net s ready alpn local idle quiet =
      let (msg, shown) =
        (path_to_string-AreCoherent net.big_endian net.printer s.ends).0 idle.printable in
      elim (Bool-cases (ready && (length alpn == 0 || span_equal alpn_h2 alpn))) [
        | inl accepted ↦ rw (event_cb, shown, accepted) (configured-Asked net s local idle quiet)
        | inr refused ↦ rw (event_cb, shown, refused) (close_session-Asked host s idle quiet)
      ]
