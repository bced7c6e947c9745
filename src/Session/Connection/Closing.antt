-- ===== src/Session/Connection/Closing.antt =====
-- session.cpp: what a callback of libevent posts: nothing, or one job that closes the session.
use wshttp.Prelude.{
  Option, none, ◌||◌, ◌==◌, nat_eq, ◌≡◌, refl, sym, ◌∙◌, ◌⊎◌, inl, inr, subst, false, some, List,
  [], ◌∷◌, ◌++◌, ℕ, Bool, Bool-cases, ltb, length, not, ◌&&◌, arith,
}
use wshttp.Prelude.Outcome.{Result, ok, throw, runtime_error, ◌>>=◌, Result-cases}
use wshttp.Address.Ip.{path_to_string}
use wshttp.Request.{span_equal}
use wshttp.Stream.{inbound}
use wshttp.Session.{Session, Http2, listener_close_session}
use wshttp.Session.Hooks.{Environment, close_session}
use wshttp.Session.Transfer.{
  Driver, with_session, send_session_data, read_cb, write_cb, send_callback, send_hook,
}
use wshttp.Session.Setup.{
  Net, event_cb, config_send_initial, initialize_inbound, send_initial_inbound, submit_settings,
  alpn_h2,
}
use wshttp.Session.Connection.{
  Call, Calls, CallsOnly, hook, sends, finished, next, Leaves, hook-Leaves, close_inbound,
}
use wshttp.Session.Driving.{Input, readable, writable, failed, react}

-- The session is the same but for its posted jobs, as far as closing goes.
abbrev pub Same : Session → Session → Type 0
Same s t = (t.dir ≡ s.dir) × (t.ends ≡ s.ends) × (t.posted ≡ s.posted)

abbrev pub Asks : Session → Result Session → Type 0
Asks s (throw _) = Unit
Asks s (ok t) =
    (t.ends ≡ s.ends)
    × ((t.posted ≡ s.posted) ⊎ (t.posted ≡ s.posted ++ listener_close_session s.ends.remote ∷ []))

Same-trans : (s t u : Session) → Same s t → Same t u → Same s u
Same-trans s t u (d, e, p) (d', e', p') = (d' ∙ d, e' ∙ e, p' ∙ p)

sends-Same : (s : Session) (bytes : List ℕ) → Same s (send_callback s bytes).0
unfolding send_callback send_hook
sends-Same s bytes = ground arith

Call-Same : (env : Environment) (s t : Session) → Call env s t → Same s t
Call-Same env s t (hook e effects rv did) =
    let (_, same_dir, same_ends, same_posted) = subst (Leaves s) did (hook-Leaves env s e) in
    (same_dir, same_ends, same_posted)
Call-Same env s t (sends bytes did) = rw did (sends-Same s bytes)

pub Calls-Same : (env : Environment) (s t : Session) → Calls env s t → Same s t
Calls-Same env s t finished = (refl, refl, refl)
Calls-Same env s t (next {t = u} call rest) =
    Same-trans s u t (Call-Same env s u call) (Calls-Same env u t rest)

-- A step that leaves all this alone may come first.
Asks-after : (s t : Session) (r : Result Session) → Same s t → Asks t r → Asks s r
Asks-after s t (throw e) same asks = tt
Asks-after s t (ok u) (_, ends, posted) asks = (
  asks.0 ∙ ends,
  elim asks.1 [ inl same' ↦ inl (same' ∙ posted) | inr one ↦ inr (one ∙ rw (posted, ends) refl) ],
)

Same-Asks : (s t : Session) → Same s t → Asks s (ok t)
Same-Asks s t (_, ends, posted) = (ends, inl posted)

-- What throws asks for nothing.
throws-Asks : (s : Session) {A : Type 0} (r : Result A) → Asks s (r >>= λ _. throw runtime_error)
throws-Asks s (ok _) = tt
throws-Asks s (throw _) = tt

with_session-Asks :
    (s : Session) (h : Option Http2) (r : Result Session) → Asks s r → Asks s (with_session h r)
with_session-Asks s none r asks = tt
with_session-Asks s (some _) r asks = asks

-- What a step of the set-up leaves alone, where it returns.
abbrev Kept : Session → Result Session → Type 0
Kept s (throw _) = Unit
Kept s (ok t) = Same s t

bind-Asks :
    (s : Session) (r : Result Session) (k : Session → Result Session)
    → Kept s r
    → ((t : Session) → Asks t (k t))
    → Asks s (r >>= k)
bind-Asks s (throw e) k same asks = tt
bind-Asks s (ok t) k same asks = Asks-after s t (k t) same (asks t)

initialize-Kept : (net : Net) (s : Session) → Kept s (initialize_inbound net s)
unfolding initialize_inbound
initialize-Kept net s = ground arith

submit-Kept : (net : Net) (s : Session) → Kept s (submit_settings net s)
unfolding submit_settings
submit-Kept net s = ground arith

close_session-Asks : (s : Session) → s.dir ≡ inbound → Asks s (ok (close_session s))
close_session-Asks s dir = subst (λ t. Asks s (ok t)) (sym (close_inbound s dir)) (refl, inr refl)

module _ (env : Environment) (d : Driver) (calls : CallsOnly env d) where
  send-Asks : (s : Session) → Asks s (send_session_data d s)
  unfolding send_session_data
  send-Asks s = with_session-Asks s s.http2 _ (elim (Bool-cases (d.send s).1) [
    | inl sent ↦ rw sent (Same-Asks s (d.send s).0 (Calls-Same env s (d.send s).0 (calls s).1))
    | inr lost ↦ rw lost (throws-Asks s _)
  ])

  read-Asks : (s : Session) → s.dir ≡ inbound → Asks s (read_cb d s)
  unfolding read_cb
  read-Asks s dir = with_session-Asks s s.http2 _ (
      let same = Calls-Same env s (d.mem_recv s).0 (calls s).0 in
      elim (Bool-cases (d.mem_recv s).1) [
        | inl received ↦ rw received (
            Asks-after s (d.mem_recv s).0 (send_session_data d (d.mem_recv s).0) same
              (send-Asks (d.mem_recv s).0))
        | inr refused ↦ rw refused (
            Asks-after s (d.mem_recv s).0 (ok (close_session (d.mem_recv s).0)) same
              (close_session-Asks (d.mem_recv s).0 (same.0 ∙ dir)))
      ])

  write-Asks : (s : Session) → s.dir ≡ inbound → Asks s (write_cb d s)
  unfolding write_cb
  write-Asks s dir = elim (Bool-cases (ltb 0 (length s.output))) [
    | inl busy ↦ rw (write_cb, busy) (refl, inl refl)
    | inr empty ↦
        rw (write_cb, empty)
          (with_session-Asks s s.http2 _
            (elim (Bool-cases (not (d.want_read s) && not (d.want_write s))) [
              | inl over ↦ rw over (close_session-Asks s dir)
              | inr more ↦ rw more (send-Asks s)
            ]))
  ]

  initial-Asks : (net : Net) (s : Session) → s.dir ≡ inbound → Asks s (config_send_initial net d s)
  unfolding config_send_initial send_initial_inbound
  initial-Asks net s dir =
      rw (config_send_initial, dir)
        (bind-Asks s (initialize_inbound net s) (send_initial_inbound net d) (initialize-Kept net s)
          (λ t.
            bind-Asks t (submit_settings net t) (send_session_data d) (submit-Kept net t)
              send-Asks))

  pub event_cb-Asks :
      (net : Net) (s : Session) (connected : Bool) (alpn : List ℕ)
      → s.dir ≡ inbound
      → Asks s (event_cb net d s connected alpn)
  unfolding event_cb
  event_cb-Asks net s connected alpn dir =
      elim (Result-cases (path_to_string net.big_endian net.printer s.ends)) [
        | inl (e, thrown) ↦ rw (event_cb, thrown) tt
        | inr (msg, shown) ↦
            elim (Bool-cases (connected && (length alpn == 0 || span_equal alpn_h2 alpn))) [
              | inl agreed ↦ rw (event_cb, shown, agreed) (initial-Asks net s dir)
              | inr refused ↦ rw (event_cb, shown, refused) (close_session-Asks s dir)
            ]
      ]

  pub react-Asks : (s : Session) (i : Input) → s.dir ≡ inbound → Asks s (react d s i)
  react-Asks s readable dir = read-Asks s dir
  react-Asks s writable dir = write-Asks s dir
  react-Asks s (failed net) dir = event_cb-Asks net s false [] dir
