-- ===== src/Session/Connection.antt =====
-- session.cpp: an inbound session from its configuration to its end, with libevent calling for input
-- and output, and nghttp2 calling the session's hooks in between.
pub mod Life
pub mod Closing
pub mod Stages
use wshttp.Prelude.{
  ℕ, ◌≡◌, refl, sym, ap, ◌∙◌, ◌⊎◌, inl, inr, subst, Bool, true, false, Option, none, some, List, [],
  ◌∷◌, ◌++◌, All, arith, Bool-cases, Option-cases, leb, ltb, length, All-snoc, not, ◌&&◌,
}
use wshttp.Prelude.Outcome.{Result, ok, throw, runtime_error, Result-cases, ◌>>=◌}
use wshttp.Maps.{find, try_emplace, nat_key}
use wshttp.Address.Ip.{PathPair, to_string}
use wshttp.Address.Ip.Coherent.{IsCoherent, AreCoherent, prints, path_to_string-AreCoherent}
use wshttp.Request
use wshttp.Request.{field_name, span_equal}
use wshttp.Uri.{Uri}
use wshttp.Stream
use wshttp.Stream.{inbound, Stream, Effect, Status}
use wshttp.Session.{Session, Http2, Posted, listener_close_session}
use wshttp.Session.Hooks.{
  Reply, close_session, call_stream, make_stream, fill_stream, begin_headers_inbound,
  recv_header_inbound, frame_recv_inbound, stream_close_inbound, Event, begin_headers, header,
  frame_recv, stream_close, data_chunk, Environment, on_event_inbound, skips_request, ends_request,
}
use wshttp.Session.Streams.{IsSound, Admits, Keeps, on_event-Keeps}
use wshttp.Session.Transfer.{
  Driver, with_session, dispatch_failed, output_block_threshold, send_hook, send_callback,
  send_session_data, read_session_data, read_cb, write_session_data, write_cb,
}
use wshttp.Session.Setup.{Net, event_cb}

-- One call of nghttp2 into the session: a hook, or the callback with which it sends.
pub data Call (env : Environment) (s t : Session) : Type 0 where
  hook :
      (e : Event) (effects : List Effect) (rv : Status)
      → on_event_inbound env s e ≡ ok (t, effects, rv)
      → Call env s t
  sends : (bytes : List ℕ) → t ≡ (send_callback s bytes).0 → Call env s t

pub data Calls (env : Environment) : Session → Session → Type 0 where
  finished : {s : Session} → Calls env s s
  next : {s t u : Session} → Call env s t → Calls env t u → Calls env s u

-- nghttp2 changes the session by such calls only.
abbrev pub CallsOnly : Environment → Driver → Type 0
CallsOnly env d = (s : Session) → Calls env s (d.mem_recv s).0 × Calls env s (d.send s).0

-- Any request.
abbrev pub Any : Uri → Type 0
Any u = Unit

-- A configured inbound session with those ends: its streams are sound, and it posts no job but that
-- which closes it.
pub record Inv (ends : PathPair) (s : Session) : Type 0 where
  pub configured : (h : Http2) × (s.http2 ≡ some h)
  pub is_inbound : s.dir ≡ inbound
  pub same_ends : s.ends ≡ ends
  pub sound : IsSound Any s
  pub closes_itself : All (λ job. job ≡ listener_close_session ends.remote) s.posted

-- What the hooks leave alone.
abbrev pub Leaves : Session → Reply → Type 0
Leaves s (throw _) = Unit
Leaves s (ok (t, _, _)) =
    (t.http2 ≡ s.http2) × (t.dir ≡ s.dir) × (t.ends ≡ s.ends) × (t.posted ≡ s.posted)

call_stream-Leaves :
    (s : Session) (id : ℕ) (f : Stream → Stream.Step) → Leaves s (call_stream s id f)
unfolding call_stream
call_stream-Leaves s id f = ground arith

pub hook-Leaves :
    (env : Environment) (s : Session) (e : Event) → Leaves s (on_event_inbound env s e)
unfolding on_event_inbound begin_headers_inbound recv_header_inbound frame_recv_inbound
    stream_close_inbound fill_stream make_stream
hook-Leaves env s (begin_headers frame) = ground arith
hook-Leaves env s (header frame name value) = ground (arith, call_stream-Leaves s frame.stream_id)
hook-Leaves env s (frame_recv frame) = ground arith
hook-Leaves env s (stream_close id error_code) = (refl, refl, refl, refl)
hook-Leaves env s (data_chunk id bytes) = (refl, refl, refl, refl)

pub admits : (env : Environment) (e : Event) → Admits Any env e
admits env (begin_headers frame) = tt
admits env (header frame name value) = λ matched. tt
admits env (frame_recv frame) = tt
admits env (stream_close id error_code) = tt
admits env (data_chunk id bytes) = tt

pub hook-Inv :
    (env : Environment) (ends : PathPair) (s t : Session) (e : Event) (effects : List Effect)
    (rv : Status)
    → on_event_inbound env s e ≡ ok (t, effects, rv)
    → Inv ends s
    → Inv ends t
hook-Inv env ends s t e effects rv did inv =
    let (same_http2, same_dir, same_ends, same_posted) =
      subst (Leaves s) did (hook-Leaves env s e) in
    record {
      configured = (inv.configured.0, same_http2 ∙ inv.configured.1);
      is_inbound = same_dir ∙ inv.is_inbound;
      same_ends = same_ends ∙ inv.same_ends;
      sound = subst (Keeps Any) did (on_event-Keeps Any env s e tt (admits env e) inv.sound);
      closes_itself =
          subst (All (λ job. job ≡ listener_close_session ends.remote)) (sym same_posted)
            inv.closes_itself;
    }

pub sends-Inv :
    (ends : PathPair) (s : Session) (bytes : List ℕ)
    → Inv ends s
    → Inv ends (send_callback s bytes).0
unfolding send_callback send_hook
sends-Inv ends s bytes inv = elim (Bool-cases (leb output_block_threshold (length s.output))) [
  | inl full ↦ rw full inv
  | inr room ↦ rw room (record {
    configured = inv.configured;
    is_inbound = inv.is_inbound;
    same_ends = inv.same_ends;
    sound = inv.sound;
    closes_itself = inv.closes_itself;
  })
]

pub Calls-Inv :
    (env : Environment) (ends : PathPair) (s t : Session) → Calls env s t → Inv ends s → Inv ends t
Calls-Inv env ends s t finished inv = inv
Calls-Inv env ends s t (next {t = u} (hook e effects rv did) rest) inv =
    Calls-Inv env ends u t rest (hook-Inv env ends s u e effects rv did inv)
Calls-Inv env ends s t (next {t = u} (sends bytes did) rest) inv =
    Calls-Inv env ends u t rest (rw did (sends-Inv ends s bytes inv))

pub close_inbound :
    (s : Session)
    → s.dir ≡ inbound
    → close_session s ≡ record s { posted = s.posted ++ listener_close_session s.ends.remote ∷ [] }
unfolding close_session
close_inbound s e = ground (arith, e)

pub close_session-Inv : (ends : PathPair) (s : Session) → Inv ends s → Inv ends (close_session s)
close_session-Inv ends s inv = subst (Inv ends) (sym (close_inbound s inv.is_inbound)) (record {
  configured = inv.configured;
  is_inbound = inv.is_inbound;
  same_ends = inv.same_ends;
  sound = inv.sound;
  closes_itself =
      All-snoc _ s.posted _ inv.closes_itself
        (ap (λ (x : PathPair). listener_close_session x.remote) inv.same_ends);
})
