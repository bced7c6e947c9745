-- ===== src/Session/Blindness.antt =====
-- session.cpp and stream.cpp: what the requests that an inbound session receives make it answer.
use wshttp.Prelude.{
  ◌≡◌, ◌∙◌, refl, arith, Bool-cases, inl, inr, none, List, [], ◌∷◌, ◌++◌, All, All-append, ℕ,
  Option-cases, some, subst,
}
use wshttp.Prelude.Outcome.{ok, throw, Result-cases}
use wshttp.Maps.{find, nat_key}
use wshttp.Request.{field_name}
use wshttp.Request.Literals.{HasNoZero, span_equal-usp}
use wshttp.Uri.{default_uri, to_bool, empty, path, field_at}
use wshttp.Stream.{
  success, Effect, opened, Os, Stream, send_error, send_error_body, answer_from_pipe, send_response,
  recv_frame, strip_slashes, stream_d,
}
use wshttp.Session.{Session}
use wshttp.Session.Hooks.{
  Reply, Frame, Event, begin_headers, header, frame_recv, stream_close, data_chunk, Environment,
  on_event_inbound, recv_header_inbound, skips_request, run_events, frame_recv_inbound, call_stream,
  ends_request, stream_close_inbound, released, begin_headers_inbound, fill_stream, make_stream,
}
use wshttp.Session.Streams.{IsSound, Keeps-ok, on_event-Keeps}
use wshttp.Session.Paths.{IsEmpty, IsWire, admits}

-- The calls that say where requests begin and end, without what the requests say.
abbrev pub outlines : List Event → List Event
outlines [] = []
outlines (begin_headers frame ∷ es) = begin_headers frame ∷ outlines es
outlines (header frame name value ∷ es) = outlines es
outlines (frame_recv frame ∷ es) = frame_recv frame ∷ outlines es
outlines (stream_close id error_code ∷ es) = stream_close id error_code ∷ outlines es
outlines (data_chunk id bytes ∷ es) = outlines es

header_ignored :
    (env : Environment) (s : Session) (frame : Frame) (name value : List ℕ)
    → HasNoZero name
    → recv_header_inbound env.parse s frame name value ≡ ok (s, [], success)
unfolding recv_header_inbound field_name
header_ignored env s frame name value wire = elim (Bool-cases (skips_request frame)) [
  | inl skipped ↦ rw (recv_header_inbound, skipped) refl
  | inr taken ↦ rw (recv_header_inbound, taken, span_equal-usp ":path" name wire) refl
]

-- A call that changes nothing and asks for nothing.
skip_event :
    (env : Environment) (s : Session) (e : Event) (es : List Event)
    → on_event_inbound env s e ≡ ok (s, [], success)
    → run_events (on_event_inbound env) s (e ∷ es) ≡ run_events (on_event_inbound env) s es
unfolding run_events
skip_event env s e es idle = elim (Result-cases (run_events (on_event_inbound env) s es)) [
  | inl (x, thrown) ↦ rw (run_events, idle, thrown) refl
  | inr (done, ran) ↦ rw (run_events, idle, ran) refl
]

-- Equal results after an event give equal results before it.
keep_event :
    (env : Environment) (s : Session) (e : Event) (es fs : List Event)
    → ((t : Session)
        → run_events (on_event_inbound env) t es ≡ run_events (on_event_inbound env) t fs)
    → run_events (on_event_inbound env) s (e ∷ es) ≡ run_events (on_event_inbound env) s (e ∷ fs)
unfolding run_events
keep_event env s e es fs same = elim (Result-cases (on_event_inbound env s e)) [
  | inl (x, thrown) ↦ rw (run_events, thrown) refl
  | inr ((t, effects, rv), ran) ↦ rw (run_events, ran, same t) refl
]

-- What an inbound session does, and asks of the system, does not depend on what its requests say:
-- with any headers that HTTP/2 can carry, and any data, it comes to the same as with none at all.
pub run_events-outlines :
    (env : Environment) (s : Session) (es : List Event)
    → All IsWire es
    → run_events (on_event_inbound env) s es ≡ run_events (on_event_inbound env) s (outlines es)
unfolding on_event_inbound
run_events-outlines env s [] wire = refl
run_events-outlines env s (begin_headers frame ∷ es) (_, wire) =
    keep_event env s _ es (outlines es) (λ t. run_events-outlines env t es wire)
run_events-outlines env s (header frame name value ∷ es) (here, wire) =
    skip_event env s _ es (header_ignored env s frame name value here)
    ∙ run_events-outlines env s es wire
run_events-outlines env s (frame_recv frame ∷ es) (_, wire) =
    keep_event env s _ es (outlines es) (λ t. run_events-outlines env t es wire)
run_events-outlines env s (stream_close id error_code ∷ es) (_, wire) =
    keep_event env s _ es (outlines es) (λ t. run_events-outlines env t es wire)
run_events-outlines env s (data_chunk id bytes ∷ es) (_, wire) =
    skip_event env s _ es refl ∙ run_events-outlines env s es wire

-- An effect that is not the opening of a file.
abbrev pub IsNotOpened : Effect → Type 0
IsNotOpened (opened _) = ⊥
IsNotOpened _ = Unit

-- A hook that opens no file.
abbrev OpensNone : Reply → Type 0
OpensNone (throw _) = Unit
OpensNone (ok (_, effects, _)) = All IsNotOpened effects

send_error_body-IsNotOpened :
    (os : Os) (st : Stream) (read_end write_end : ℕ)
    → All IsNotOpened (send_error_body os st read_end write_end).1
unfolding send_error_body answer_from_pipe send_response
send_error_body-IsNotOpened os st read_end write_end = ground arith

send_error-IsNotOpened : (os : Os) (st : Stream) → All IsNotOpened (send_error os st).1
unfolding send_error
send_error-IsNotOpened os st = elim (Option-cases os.make_pipe) [
  | inl none_made ↦ rw (send_error, none_made) (tt, tt)
  | inr (pipe, made) ↦ rw (send_error, made) (send_error_body-IsNotOpened os st pipe.0 pipe.1)
]

recv_frame-IsNotOpened :
    (os : Os) (st : Stream)
    → os.open_file "" ≡ none
    → st.req ≡ default_uri
    → All IsNotOpened (recv_frame os st).1
unfolding recv_frame to_bool empty path field_at strip_slashes
recv_frame-IsNotOpened os st missing blank =
    rw (recv_frame, blank, missing) (send_error-IsNotOpened os st)

-- The hooks open no file for a blank request.
frame_recv-OpensNone :
    (os : Os) (s : Session) (frame : Frame)
    → os.open_file "" ≡ none
    → IsSound IsEmpty s
    → OpensNone (frame_recv_inbound os s frame)
unfolding frame_recv_inbound call_stream
frame_recv-OpensNone os s frame missing h = elim (Bool-cases (ends_request frame)) [
  | inr more ↦ rw (frame_recv_inbound, more) tt
  | inl ends ↦ elim (Option-cases (find frame.stream_id s.streams)) [
    | inl unknown ↦ rw (frame_recv_inbound, ends, call_stream, unknown) tt
    | inr (none, null) ↦ rw (frame_recv_inbound, ends, call_stream, null) tt
    | inr (some st, found) ↦
        rw (frame_recv_inbound, ends, call_stream, found)
          (recv_frame-IsNotOpened os st missing (h frame.stream_id (some st) found).2)
  ]
]

stream_close-OpensNone : (s : Session) (id : ℕ) → OpensNone (stream_close_inbound s id)
unfolding stream_close_inbound released stream_d
stream_close-OpensNone s id = ground arith

begin_headers-OpensNone : (s : Session) (frame : Frame) → OpensNone (begin_headers_inbound s frame)
unfolding begin_headers_inbound fill_stream make_stream
begin_headers-OpensNone s frame = ground arith

on_event-OpensNone :
    (env : Environment) (s : Session) (e : Event)
    → env.os.open_file "" ≡ none
    → IsWire e
    → IsSound IsEmpty s
    → OpensNone (on_event_inbound env s e)
unfolding on_event_inbound
on_event-OpensNone env s (begin_headers frame) missing wire h = begin_headers-OpensNone s frame
on_event-OpensNone env s (header frame name value) missing wire h =
    rw (header_ignored env s frame name value wire) tt
on_event-OpensNone env s (frame_recv frame) missing wire h =
    frame_recv-OpensNone env.os s frame missing h
on_event-OpensNone env s (stream_close id error_code) missing wire h = stream_close-OpensNone s id
on_event-OpensNone env s (data_chunk id bytes) missing wire h = tt

-- Where the system opens no file under the empty name, an inbound session whose streams have empty
-- requests never opens a file, whatever requests of HTTP/2 come: the run returns, and none of its
-- effects is the opening of a file.
pub run_events-IsNotOpened :
    (env : Environment) (s : Session) (es : List Event)
    → env.os.open_file "" ≡ none
    → All IsWire es
    → IsSound IsEmpty s
    → (s' : Session) × (effects : List Effect) × (run_events (on_event_inbound env) s es
        ≡ ok (s', effects))
      × All IsNotOpened effects
unfolding run_events
run_events-IsNotOpened env s [] missing wire h = (s, [], refl, tt)
run_events-IsNotOpened env s (e ∷ es) missing (here, wire) h =
    let (t, first, rv, did, kept) =
      Keeps-ok IsEmpty (on_event_inbound env s e)
        (on_event-Keeps IsEmpty env s e refl (admits env e here) h) in
    let (last, more, ran, closed) = run_events-IsNotOpened env t es missing wire kept in
    (
      last,
      first ++ more,
      rw (run_events, did, ran) refl,
      All-append IsNotOpened first more
          (subst OpensNone did (on_event-OpensNone env s e missing here h)) closed,
    )
