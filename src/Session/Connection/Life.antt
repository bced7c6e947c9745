-- ===== src/Session/Connection/Life.antt =====
-- session.cpp: the callbacks of libevent over the life of an inbound session.
use wshttp.Prelude.{◌≡◌, refl, sym, subst, inl, inr, some, [], Bool-cases}
use wshttp.Prelude.Outcome.{Result}
use wshttp.Maps.{nat_key}
use wshttp.Address.Ip.{PathPair}
use wshttp.Address.Ip.Coherent.{AreCoherent}
use wshttp.Stream.{inbound}
use wshttp.Session.{Session, Http2}
use wshttp.Session.Hooks.{Environment}
use wshttp.Session.Streams.{IsSound}
use wshttp.Session.Transfer.{Driver, send_session_data}
use wshttp.Session.Setup.{
  Net, initialize_inbound, submit_settings, send_initial_inbound, config_send_initial,
}
use wshttp.Session.Driving.{Input, react, Held, then-Held, Kept, send-Held, react-Held}
use wshttp.Session.Connection.{CallsOnly, Any, Inv, Calls-Inv, close_session-Inv}

-- What a callback may come to: a session as it should be, or the exception for a failed sending.
abbrev pub Outcome : PathPair → Result Session → Type 0
Outcome ends = Held (Inv ends)

-- A session that has not been configured yet.
pub record Fresh (ends : PathPair) (s : Session) : Type 0 where
  pub is_inbound : s.dir ≡ inbound
  pub same_ends : s.ends ≡ ends
  pub sound : IsSound Any s
  pub quiet : s.posted ≡ []

module _ (env : Environment) (d : Driver) (calls : CallsOnly env d) (ends : PathPair)
    (printable : AreCoherent ends) where
  kept : Kept (Inv ends) (Inv ends) d
  kept = record {
    configured = λ s inv. inv.configured;
    printable = λ s inv. subst AreCoherent (sym inv.same_ends) printable;
    received = λ s inv. Calls-Inv env ends s (d.mem_recv s).0 (calls s).0 inv;
    sent = λ s inv. Calls-Inv env ends s (d.send s).0 (calls s).1 inv;
    closed = λ s inv. close_session-Inv ends s inv;
    left = λ s inv. inv;
  }

  pub react-Outcome : (s : Session) (i : Input) → Inv ends s → Outcome ends (react d s i)
  react-Outcome = react-Held (Inv ends) (Inv ends) d kept

  with_http2-Inv : (s : Session) (h : Http2) → Fresh ends s → Inv ends (record s { http2 = some h })
  with_http2-Inv s h f = record {
    configured = (h, refl);
    is_inbound = f.is_inbound;
    same_ends = f.same_ends;
    sound = f.sound;
    closes_itself = rw f.quiet tt;
  }

  -- Setting up throws nothing but a runtime error, and leaves a session that can be used.
  initialized-Outcome :
      (net : Net) (s : Session) → Fresh ends s → Outcome ends (initialize_inbound net s)
  unfolding initialize_inbound
  initialized-Outcome net s f = elim (Bool-cases net.option_made) [
    | inl made ↦ elim (Bool-cases net.session_made) [
      | inl opened ↦ rw (initialize_inbound, made, opened) (with_http2-Inv s _ f)
      | inr refused ↦ rw (initialize_inbound, made, refused) refl
    ]
    | inr missing ↦ rw (initialize_inbound, missing) refl
  ]

  submitted-Outcome : (net : Net) (s : Session) → Inv ends s → Outcome ends (submit_settings net s)
  unfolding submit_settings
  submitted-Outcome net s inv = elim (Bool-cases net.settings_submitted) [
    | inl accepted ↦
        rw (submit_settings, inv.configured.1, accepted)
          (record {
            configured = (_, refl);
            is_inbound = inv.is_inbound;
            same_ends = inv.same_ends;
            sound = inv.sound;
            closes_itself = inv.closes_itself;
          })
    | inr refused ↦ rw (submit_settings, inv.configured.1, refused) refl
  ]

  pub initial-Outcome :
      (net : Net) (s : Session) → Fresh ends s → Outcome ends (config_send_initial net d s)
  unfolding config_send_initial send_initial_inbound
  initial-Outcome net s f =
      rw (config_send_initial, f.is_inbound)
        (then-Held (Inv ends) (Inv ends) (initialize_inbound net s) (send_initial_inbound net d)
          (initialized-Outcome net s f)
          (λ t inv.
            then-Held (Inv ends) (Inv ends) (submit_settings net t) (send_session_data d)
              (submitted-Outcome net t inv) (send-Held (Inv ends) (Inv ends) d kept)))
