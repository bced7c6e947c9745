-- ===== src/Session/Paths.antt =====
-- session.cpp: the paths of the requests that an inbound session receives.
use wshttp.Prelude.{◌≡◌, refl, List, [], ◌∷◌, All}
use wshttp.Prelude.Outcome.{ok}
use wshttp.Request.{field_name}
use wshttp.Request.Literals.{HasNoZero, span_equal-usp}
use wshttp.Uri.{Uri, default_uri}
use wshttp.Stream.{Effect}
use wshttp.Session.{Session}
use wshttp.Session.Hooks.{
  Event, begin_headers, header, frame_recv, stream_close, data_chunk, Environment, on_event_inbound,
  run_events,
}
use wshttp.Session.Streams.{IsSound, Admits, run_events-IsSound}

-- The request of a stream that has no path yet.
abbrev pub IsEmpty : Uri → Type 0
IsEmpty u = u ≡ default_uri

-- A header as HTTP/2 has it: its name has no zero byte.
abbrev pub IsWire : Event → Type 0
IsWire (header frame name value) = HasNoZero name
IsWire _ = Unit

pub admits : (env : Environment) (e : Event) → IsWire e → Admits IsEmpty env e
unfolding field_name
admits env (header frame name value) w = λ matched. cc (span_equal-usp ":path" name w, matched)
admits env (begin_headers frame) w = tt
admits env (frame_recv frame) w = tt
admits env (stream_close id error_code) w = tt
admits env (data_chunk id bytes) w = tt

All-Admits : (env : Environment) (es : List Event) → All IsWire es → All (Admits IsEmpty env) es
All-Admits env [] w = tt
All-Admits env (e ∷ es) (w, ws) = (admits env e w, All-Admits env es ws)

-- No header that HTTP/2 can carry gives a stream its path: whatever nghttp2 calls, each stream of an
-- inbound session keeps the empty request that it was made with.
pub run_events-IsEmpty :
    (env : Environment) (s : Session) (es : List Event)
    → All IsWire es
    → IsSound IsEmpty s
    → (s' : Session) × (effects : List Effect) × (run_events (on_event_inbound env) s es
        ≡ ok (s', effects))
      × IsSound IsEmpty s'
run_events-IsEmpty env s es w h = run_events-IsSound IsEmpty env s es refl (All-Admits env es w) h
