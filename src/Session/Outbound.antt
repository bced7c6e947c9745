-- ===== src/Session/Outbound.antt =====
-- session.cpp: an outbound session, over any sequence of calls by nghttp2.
pub mod Life
pub mod Asking
use wshttp.Prelude.{ℕ, ◌≡◌, refl, Bool, false, List, [], ◌∷◌, All, Bool-cases, inl, inr}
use wshttp.Prelude.Outcome.{ok, throw, null_access}
use wshttp.Maps.{nat_key}
use wshttp.Maps.Laws.{find_of_empty, erase_of_empty}
use wshttp.Stream
use wshttp.Stream.{Stream, Effect, Status, success, callback_failure}
use wshttp.Session.{Session}
use wshttp.Session.Hooks.{
  call_stream, recv_header_outbound, stream_close_outbound, data_chunk_recv, skips_response, Event,
  begin_headers, header, frame_recv, stream_close, data_chunk, Environment, on_event_outbound,
  run_events, Frame, begin_headers_outbound, frame_recv_outbound, released,
}

-- No chunk of data is delivered.
abbrev pub IsNoChunk : Event → Type 0
IsNoChunk (data_chunk _ _) = ⊥
IsNoChunk _ = Unit

call_stream_unknown :
    (s : Session) (id : ℕ) (f : Stream → Stream.Step)
    → s.streams ≡ []
    → call_stream s id f ≡ ok (s, [], callback_failure)
unfolding call_stream
call_stream_unknown s id f h = rw (find_of_empty id s.streams h, call_stream)

recv_header_outbound_unchanged :
    (s : Session) (frame : Frame) (name value : List ℕ)
    → s.streams ≡ []
    → (rv : Status) × (recv_header_outbound s frame name value ≡ ok (s, [], rv))
unfolding recv_header_outbound
recv_header_outbound_unchanged s frame name value h = elim (Bool-cases (skips_response frame)) [
  | inl e ↦ (success, rw (e, recv_header_outbound))
  | inr e ↦
      (callback_failure, rw (e, recv_header_outbound) (call_stream_unknown s frame.stream_id _ h))
]

stream_close_outbound_unchanged :
    (terminated : Bool) (s : Session) (id : ℕ)
    → s.streams ≡ []
    → stream_close_outbound terminated s id ≡ ok (s, [], success)
unfolding stream_close_outbound released
stream_close_outbound_unchanged terminated s id h =
    rw
      (erase_of_empty id s.streams h, find_of_empty id s.streams h, stream_close_outbound, released)

pub on_event_unchanged :
    (env : Environment) (s : Session) (e : Event)
    → s.streams ≡ []
    → IsNoChunk e
    → (rv : Status) × (on_event_outbound env s e ≡ ok (s, [], rv))
unfolding on_event_outbound begin_headers_outbound frame_recv_outbound
on_event_unchanged env s (begin_headers frame) h a = (success, refl)
on_event_unchanged env s (header frame name value) h a =
    recv_header_outbound_unchanged s frame name value h
on_event_unchanged env s (frame_recv frame) h a = (success, refl)
on_event_unchanged env s (stream_close id error_code) h a =
    (success, stream_close_outbound_unchanged env.terminated s id h)
on_event_unchanged env s (data_chunk id bytes) h a = absurd a

-- A client session that starts without streams never gets one. Over any sequence of calls that
-- delivers no data nothing about it changes, nothing is asked of the system, and so the close of
-- its stream posts no job that would close the session.
pub run_events_unchanged :
    (env : Environment) (s : Session) (es : List Event)
    → s.streams ≡ []
    → All IsNoChunk es
    → run_events (on_event_outbound env) s es ≡ ok (s, [])
unfolding run_events
run_events_unchanged env s [] h a = refl
run_events_unchanged env s (e ∷ es) h a =
    let (rv, same) = on_event_unchanged env s e h a.0 in
    rw (same, run_events) (rw (run_events_unchanged env s es h a.1, run_events))

-- On an outbound session without streams and user data, the header of a response fails the
-- callback, and a chunk of its data is delivered through a null pointer.
pub fails_without_streams :
    (env : Environment) (s : Session) (frame : Frame) (name value bytes : List ℕ) (id : ℕ)
    → s.streams ≡ []
    → s.user_data ≡ []
    → skips_response frame ≡ false
    → (on_event_outbound env s (header frame name value) ≡ ok (s, [], callback_failure))
      × (on_event_outbound env s (data_chunk id bytes) ≡ throw null_access)
unfolding on_event_outbound recv_header_outbound data_chunk_recv
fails_without_streams env s frame name value bytes id h u f = (
  rw (f, recv_header_outbound) (call_stream_unknown s frame.stream_id _ h),
  rw (find_of_empty id s.user_data u, data_chunk_recv),
)
