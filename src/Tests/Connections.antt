-- ===== src/Tests/Connections.antt =====
-- Sessions (session.cpp).
use wshttp.Prelude.{codes, ◌≡◌, refl, true, none, some, List, [], ◌∷◌, All, arith, if◌then◌else◌}
use wshttp.Prelude.Outcome.{ok}
use wshttp.Maps.{find, nat_key, string_key}
use wshttp.Uri.{default_uri}
use wshttp.Stream.{Io, inbound, outbound, Os, Effect}
use wshttp.Session.{Session, new_session}
use wshttp.Session.Hooks.{
  Environment, Event, Frame, headers_frame, request, begin_headers, header, frame_recv,
  stream_close, on_event_inbound, run_events,
}
use wshttp.Session.Streams.{IsSound, Admits, run_events-IsSound}
use wshttp.Session.Paths.{IsEmpty, IsWire}
use wshttp.Session.Blindness.{outlines, IsNotOpened, run_events-outlines, run_events-IsNotOpened}
use wshttp.Session.Setup.{Net}
use wshttp.Session.Traffic.{
  Move, handed, flushed, Line, run_moves, IsSmall, Faithful, run_moves-Faithful,
}
use wshttp.Tests.Samples.{net_at, unbound}

abbrev os : Os
os = record {
  open_file = λ name. some 7;
  make_pipe = some (8, 9);
  write_count = λ bytes. some 0;
  response_accepted = true;
  rst_accepted = true;
  html_object = [];
}

abbrev env : Environment
env = record { os = os; parse = λ bytes. default_uri; terminated = true }

abbrev start : Io → Session
start dir = new_session dir none unbound "host"

abbrev get : Frame
get = record { type = headers_frame; cat = request; stream_id = 1; end_stream = true }

-- A request on the stream 1, from its headers to the close of the stream.
abbrev one_request : List Event
one_request =
    begin_headers get
    ∷ header get (codes ":path") (98 ∷ [])
    ∷ frame_recv get
    ∷ stream_close 1 0
    ∷ []

start-IsSound : IsSound IsEmpty (start inbound)
unfolding new_session find
start-IsSound k v e = ground arith

one_request-Admits : All (Admits IsEmpty env) one_request
one_request-Admits = (tt, ((λ e. refl), (tt, (tt, tt))))

run_events-IsSound_example :
    (s : Session) × (effects : List Effect) × (run_events
        (on_event_inbound env)
        (start inbound)
        one_request
      ≡ ok (s, effects))
    × IsSound IsEmpty s
run_events-IsSound_example =
    run_events-IsSound IsEmpty env (start inbound) one_request refl one_request-Admits start-IsSound

one_request-AreWire : All IsWire one_request
one_request-AreWire = (tt, (ground arith, (tt, (tt, tt))))

run_events-outlines_example :
    run_events (on_event_inbound env) (start inbound) one_request
    ≡ run_events (on_event_inbound env) (start inbound) (outlines one_request)
run_events-outlines_example =
    run_events-outlines env (start inbound) one_request one_request-AreWire

-- No file has the empty name.
abbrev plain_env : Environment
plain_env = record (env) {
  os = record (os) { open_file = λ name. if string_key.same name "" then none else some 7 };
}

run_events-IsNotOpened_example :
    (s : Session) × (effects : List Effect) × (run_events
        (on_event_inbound plain_env)
        (start inbound)
        one_request
      ≡ ok (s, effects))
    × All IsNotOpened effects
run_events-IsNotOpened_example =
    run_events-IsNotOpened plain_env (start inbound) one_request refl one_request-AreWire
      start-IsSound

abbrev idle : Line
idle = record { session = start outbound; wire = []; taken = [] }

idle-Faithful : Faithful 16 idle
unfolding new_session
idle-Faithful = record { in_order = refl; bounded = omega arith }

abbrev some_moves : List Move
some_moves = handed (1 ∷ 2 ∷ []) ∷ flushed 1 ∷ handed (3 ∷ []) ∷ flushed 5 ∷ []

some_moves-AreSmall : All (IsSmall 16) some_moves
some_moves-AreSmall = (omega arith, (tt, (omega arith, (tt, tt))))

run_moves-Faithful_example : Faithful 16 (run_moves idle some_moves)
run_moves-Faithful_example = run_moves-Faithful 16 idle some_moves some_moves-AreSmall idle-Faithful

abbrev net : Net
net = net_at none
