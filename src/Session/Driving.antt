-- ===== src/Session/Driving.antt =====
-- session.cpp: the callbacks of libevent for a session that is configured, whichever its class.
use wshttp.Prelude.{
  ◌≡◌, refl, sym, ap, inl, inr, subst, false, some, List, [], ◌∷◌, Bool-cases, ltb, length, not,
  ◌&&◌,
}
use wshttp.Prelude.Outcome.{Result, ok, throw, runtime_error, ◌>>=◌}
use wshttp.Address.Ip.Coherent.{AreCoherent, prints, path_to_string-AreCoherent}
use wshttp.Session.{Session, Http2}
use wshttp.Session.Hooks.{close_session}
use wshttp.Session.Transfer.{
  Driver, with_session, dispatch_failed, send_session_data, read_session_data, read_cb,
  write_session_data, write_cb,
}
use wshttp.Session.Setup.{Net, event_cb}

-- What libevent calls once the session is configured.
pub data Input : Type 0 where
  readable writable : Input
  failed : Net → Input

abbrev pub react : Driver → Session → Input → Result Session
react d s readable = read_cb d s
react d s writable = write_cb d s
react d s (failed net) = event_cb net d s false []

-- Calls in a row, up to the first exception.
abbrev pub run_inputs : Driver → Session → List Input → Result Session
run_inputs d s [] = ok s
run_inputs d s (i ∷ is') = react d s i >>= λ t. run_inputs d t is'

-- What a call may come to: a value that is as it should be, or a runtime error.
abbrev pub Held {ℓ} : {A : Type ℓ} → (A → Type 0) → Result A → Type 0
Held P (ok t) = P t
Held P (throw e) = e ≡ runtime_error

pub then-Held {ℓ κ} :
    {A : Type ℓ} {B : Type κ} (P : A → Type 0) (Q : B → Type 0) (r : Result A) (k : A → Result B)
    → Held P r
    → ((t : A) → P t → Held Q (k t))
    → Held Q (r >>= k)
then-Held P Q (ok t) k fine more = more t fine
then-Held P Q (throw e) k fine more = fine

-- What the callbacks need to go from `P` to `Q`: the session is configured and its ends can be
-- printed, nghttp2 keeps `P`, and both leaving the session and asking to close it give `Q`.
pub record Kept (P Q : Session → Type 0) (d : Driver) : Type 0 where
  pub configured : (s : Session) → P s → (h : Http2) × (s.http2 ≡ some h)
  pub printable : (s : Session) → P s → AreCoherent s.ends
  pub received : (s : Session) → P s → P (d.mem_recv s).0
  pub sent : (s : Session) → P s → P (d.send s).0
  pub closed : (s : Session) → P s → Q (close_session s)
  pub left : (s : Session) → P s → Q s

module _ (P Q : Session → Type 0) (d : Driver) (kept : Kept P Q d) where
  failed-Held : (s : Session) → P s → Held Q (dispatch_failed d s)
  failed-Held s h =
      let (text, printed) = prints d.big_endian d.printer s.ends.remote (kept.printable s h).1 in
      rw printed refl

  -- A configured session's pointer is not null.
  used-Held :
      (s : Session) (used : Result Session) → P s → Held Q used → Held Q (with_session s.http2 used)
  used-Held s used h fine =
      subst (Held Q) (sym (ap (λ o. with_session o used) (kept.configured s h).1)) fine

  pub send-Held : (s : Session) → P s → Held Q (send_session_data d s)
  unfolding send_session_data
  send-Held s h = used-Held s _ h (
      let after = kept.sent s h in
      elim (Bool-cases (d.send s).1) [
        | inl done ↦ rw done (kept.left (d.send s).0 after)
        | inr lost ↦ rw lost (failed-Held (d.send s).0 after)
      ])

  read-Held : (s : Session) → P s → Held Q (read_cb d s)
  unfolding read_cb read_session_data
  read-Held s h = used-Held s _ h (
      let after = kept.received s h in
      elim (Bool-cases (d.mem_recv s).1) [
        | inl taken ↦ rw taken (send-Held (d.mem_recv s).0 after)
        | inr refused ↦ rw refused (kept.closed (d.mem_recv s).0 after)
      ])

  write-Held : (s : Session) → P s → Held Q (write_cb d s)
  unfolding write_cb write_session_data
  write-Held s h = elim (Bool-cases (ltb 0 (length s.output))) [
    | inl busy ↦ rw (write_cb, write_session_data, busy) (kept.left s h)
    | inr empty ↦
        rw (write_cb, write_session_data, empty)
          (used-Held s _ h (elim (Bool-cases (not (d.want_read s) && not (d.want_write s))) [
            | inl over ↦ rw over (kept.closed s h)
            | inr more ↦ rw more (send-Held s h)
          ]))
  ]

  failure-Held : (net : Net) (s : Session) → P s → Held Q (event_cb net d s false [])
  unfolding event_cb
  failure-Held net s h =
      let (msg, shown) =
        (path_to_string-AreCoherent net.big_endian net.printer s.ends).0 (kept.printable s h) in
      rw (event_cb, shown) (kept.closed s h)

  pub react-Held : (s : Session) (i : Input) → P s → Held Q (react d s i)
  react-Held s readable h = read-Held s h
  react-Held s writable h = write-Held s h
  react-Held s (failed net) h = failure-Held net s h

-- Over calls in a row, `P` is kept all along.
module _ (P : Session → Type 0) (d : Driver) (kept : Kept P P d) where
  pub run_inputs-Held : (s : Session) (is' : List Input) → P s → Held P (run_inputs d s is')
  run_inputs-Held s [] h = h
  run_inputs-Held s (i ∷ is') h =
      then-Held P P (react d s i) (λ t. run_inputs d t is') (react-Held P P d kept s i h)
        (λ t after. run_inputs-Held t is' after)
