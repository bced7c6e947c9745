-- ===== src/Session/Connection/Stages.antt =====
-- session.cpp: the two stages of an inbound session, before its connection stands and after.
use wshttp.Prelude.{
  ℕ, ◌≡◌, refl, sym, subst, ◌⊎◌, inl, inr, Bool, ◌&&◌, ◌||◌, ◌==◌, nat_eq, List, [], length,
  Bool-cases,
}
use wshttp.Prelude.Outcome.{Result, ok, throw, runtime_error}
use wshttp.Address.Ip.{PathPair}
use wshttp.Address.Ip.Coherent.{AreCoherent, path_to_string-AreCoherent}
use wshttp.Request.{span_equal}
use wshttp.Session.{Session}
use wshttp.Session.Hooks.{Environment, close_session}
use wshttp.Session.Transfer.{Driver}
use wshttp.Session.Setup.{Net, event_cb, alpn_h2}
use wshttp.Session.Connection.{CallsOnly, Inv, close_inbound}
use wshttp.Session.Driving.{Input, react}
use wshttp.Session.Connection.Life.{Fresh, Outcome, react-Outcome, initial-Outcome}

-- The loop has taken the jobs that the session posted.
abbrev pub taken : Session → Session
taken s = record s { posted = [] }

-- A session that waits for its connection, or one that has been configured.
abbrev pub Stage : PathPair → Session → Type 0
Stage ends s = Fresh ends s ⊎ Inv ends s

abbrev pub Comes : PathPair → Result Session → Type 0
Comes ends (ok t) = Stage ends (taken t)
Comes ends (throw e) = e ≡ runtime_error

taken-Inv : (ends : PathPair) (s : Session) → Inv ends s → Inv ends (taken s)
taken-Inv ends s inv = record {
  configured = inv.configured;
  is_inbound = inv.is_inbound;
  same_ends = inv.same_ends;
  sound = inv.sound;
  closes_itself = tt;
}

Outcome-Comes : (ends : PathPair) (r : Result Session) → Outcome ends r → Comes ends r
Outcome-Comes ends (ok t) fine = inr (taken-Inv ends t fine)
Outcome-Comes ends (throw e) fine = fine

-- A connection that is refused leaves its session as it was.
closed-Comes : (ends : PathPair) (s : Session) → Fresh ends s → Comes ends (ok (close_session s))
closed-Comes ends s f =
    subst (λ t. Comes ends (ok t)) (sym (close_inbound s f.is_inbound))
      (inl (record {
        is_inbound = f.is_inbound;
        same_ends = f.same_ends;
        sound = f.sound;
        quiet = refl;
      }))

module _ (env : Environment) (d : Driver) (calls : CallsOnly env d) (ends : PathPair)
    (printable : AreCoherent ends) where
  pub event-Comes :
      (net : Net) (s : Session) (connected : Bool) (alpn : List ℕ)
      → Fresh ends s
      → Comes ends (event_cb net d s connected alpn)
  unfolding event_cb
  event-Comes net s connected alpn f =
      let (msg, shown) =
        (path_to_string-AreCoherent net.big_endian net.printer s.ends).0
          (subst AreCoherent (sym f.same_ends) printable) in
      elim (Bool-cases (connected && (length alpn == 0 || span_equal alpn_h2 alpn))) [
        | inl agreed ↦
            rw (event_cb, shown, agreed)
              (Outcome-Comes ends _ (initial-Outcome env d calls ends printable net s f))
        | inr refused ↦ rw (event_cb, shown, refused) (closed-Comes ends s f)
      ]

  pub react-Comes : (s : Session) (i : Input) → Inv ends s → Comes ends (react d s i)
  react-Comes s i inv = Outcome-Comes ends _ (react-Outcome env d calls ends printable s i inv)
