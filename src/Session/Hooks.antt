-- ===== src/Session/Hooks.antt =====
-- session.cpp: what the sessions do when nghttp2 calls back.
use wshttp.Prelude.{
  ℕ, Bool, true, false, not, ◌&&◌, ◌||◌, Option, none, some, List, [], ◌∷◌, ◌++◌, nat_eq,
  if◌then◌else◌,
}
use wshttp.Prelude.Outcome.{Result, ok, throw, runtime_error, null_access}
use wshttp.Maps.{find, try_emplace, assign, erase, nat_key}
use wshttp.Request
use wshttp.Request.{Headers, field_name, span_equal, of_pair}
use wshttp.Uri.{Uri, default_uri}
use wshttp.Stream
use wshttp.Stream.{
  Io, inbound, outbound, Stream, Effect, Os, Status, success, callback_failure, new_stream,
  stream_d,
}
use wshttp.Session.{Session, listener_close_session, node_close_session}

-- `nghttp2_frame_type` and `nghttp2_headers_category`
pub data FrameType : Type 0 where
  data_frame headers_frame : FrameType
  other_frame : ℕ → FrameType

pub data Category : Type 0 where
  request response other_category : Category

-- What the hooks read of an `nghttp2_frame`: `end_stream` is the bit `NGHTTP2_FLAG_END_STREAM`.
pub record Frame : Type 0 where
  pub type : FrameType
  pub cat : Category
  pub stream_id : ℕ
  pub end_stream : Bool

abbrev pub Reply : Type 0
Reply = Result (Session × List Effect × Status)

-- `return rv;` with nothing changed.
abbrev reply : Session → Status → Reply
reply s rv = ok (s, [], rv)

abbrev is_headers : FrameType → Bool
is_headers headers_frame = true
is_headers _ = false

abbrev is_request : Category → Bool
is_request request = true
is_request _ = false

abbrev is_response : Category → Bool
is_response response = true
is_response _ = false

-- The frames that the hooks for requests, and for responses, pass over.
abbrev pub skips_request : Frame → Bool
skips_request frame = not (is_headers frame.type) || not (is_request frame.cat)

abbrev pub skips_response : Frame → Bool
skips_response frame = not (is_headers frame.type) || not (is_response frame.cat)

-- `close_session()` of the two classes: the job is posted, not run.
unfoldable pub close_session : Session → Session
close_session s = elim s.dir [
  | inbound ↦ record s { posted = s.posted ++ listener_close_session s.ends.remote ∷ [] }
  | outbound ↦ record s { posted = s.posted ++ node_close_session s.host ∷ [] }
]

-- `make_stream`
unfoldable pub make_stream : ℕ → Option Stream
make_stream stream_id = some (new_stream inbound stream_id default_uri)

-- The end of `inbound_session::begin_headers_hook`, where the entry at `id` is new.
unfoldable pub fill_stream : Session → List (ℕ × Option Stream) → ℕ → Option Stream → Reply
fill_stream s streams id none = throw runtime_error
fill_stream s streams id (some st) = ok (
  record s { streams = assign id (some st) streams; user_data = (id, id) ∷ s.user_data },
  [],
  success,
)

unfoldable pub begin_headers_inbound : Session → Frame → Reply
unfolding fill_stream make_stream
begin_headers_inbound s frame =
    if skips_request frame
    then reply s success
    else let (streams, made) = try_emplace frame.stream_id none s.streams in
      if not made
      then reply s success
      else fill_stream s streams frame.stream_id (make_stream frame.stream_id)

unfoldable pub begin_headers_outbound : Session → Frame → Reply
begin_headers_outbound s frame = reply s success

-- `it->second->f()`: the object changes, and the hook returns what `f` does.
unfoldable pub call_stream : Session → ℕ → (Stream → Stream.Step) → Reply
call_stream s id f = elim (find id s.streams) [
  | none ↦ reply s callback_failure
  | some none ↦ throw null_access
  | some (some st) ↦
      let (st', effects, rv) = f st in
      ok (record s { streams = assign id (some st') s.streams }, effects, rv)
]

unfoldable pub recv_header_inbound : (List ℕ → Uri) → Session → Frame → List ℕ → List ℕ → Reply
unfolding call_stream
recv_header_inbound parse s frame name value =
    if skips_request frame
    then reply s success
    else if span_equal (field_name Request.path) name
    then call_stream s frame.stream_id (λ st. Stream.recv_path_header st (parse value))
    else reply s success

unfoldable pub recv_header_outbound : Session → Frame → List ℕ → List ℕ → Reply
unfolding call_stream
recv_header_outbound s frame name value =
    if skips_response frame
    then reply s success
    else call_stream s frame.stream_id
        (λ st. Stream.recv_header st (of_pair name value Request.flag_none))

abbrev carries_body : FrameType → Bool
carries_body data_frame = true
carries_body headers_frame = true
carries_body (other_frame _) = false

-- `case NGHTTP2_DATA: case NGHTTP2_HEADERS:` with the flag for the end of the stream.
abbrev pub ends_request : Frame → Bool
ends_request frame = carries_body frame.type && frame.end_stream

unfoldable pub frame_recv_inbound : Os → Session → Frame → Reply
unfolding call_stream
frame_recv_inbound os s frame =
    if ends_request frame
    then call_stream s frame.stream_id (Stream.recv_frame os)
    else reply s success

unfoldable pub frame_recv_outbound : Session → Frame → Reply
frame_recv_outbound s frame = reply s success

-- The deleter of the `shared_ptr` that an erased entry held.
unfoldable pub released : Option (Option Stream) → List Effect
released none = []
released (some none) = []
released (some (some st)) = stream_d st

unfoldable pub stream_close_inbound : Session → ℕ → Reply
unfolding released
stream_close_inbound s stream_id =
    let (streams, found) = erase stream_id s.streams in
    ok (record s { streams = streams }, released (find stream_id s.streams), success)

-- `terminated` says whether `nghttp2_session_terminate_session` returns 0.
unfoldable pub stream_close_outbound : Bool → Session → ℕ → Reply
unfolding released close_session
stream_close_outbound terminated s stream_id =
    let (streams, found) = erase stream_id s.streams in
    let s' : Session = record s { streams = streams } in
    let gone = released (find stream_id s.streams) in
    if found
    then if terminated
      then ok (close_session s', gone, success)
      else ok (s', gone, callback_failure)
    else ok (s', gone, success)

-- `on_data_chunk_recv_callback`: the object comes from the user data of the stream, and a stream
-- without any gives a null pointer.
unfoldable pub data_chunk_recv : Session → ℕ → List ℕ → Reply
unfolding call_stream
data_chunk_recv s stream_id bytes = elim (find stream_id s.user_data) [
  | none ↦ throw null_access
  | some key ↦ call_stream s key (λ st. Stream.recv_data st bytes)
]

-- The calls that nghttp2 makes.
pub data Event : Type 0 where
  begin_headers : Frame → Event
  header : Frame → (name value : List ℕ) → Event
  frame_recv : Frame → Event
  stream_close : (stream_id error_code : ℕ) → Event
  data_chunk : (stream_id : ℕ) → List ℕ → Event

-- Everything that the hooks take from outside.
pub record Environment : Type 0 where
  pub os : Os
  pub parse : List ℕ → Uri
  pub terminated : Bool

-- The virtual call, by the class of the session. An inbound session does not register the callback
-- for data, so nghttp2 passes over the chunks.
unfoldable pub on_event_inbound : Environment → Session → Event → Reply
unfolding begin_headers_inbound recv_header_inbound frame_recv_inbound stream_close_inbound
on_event_inbound env s (begin_headers frame) = begin_headers_inbound s frame
on_event_inbound env s (header frame name value) = recv_header_inbound env.parse s frame name value
on_event_inbound env s (frame_recv frame) = frame_recv_inbound env.os s frame
on_event_inbound env s (stream_close stream_id error_code) = stream_close_inbound s stream_id
on_event_inbound env s (data_chunk stream_id bytes) = reply s success

unfoldable pub on_event_outbound : Environment → Session → Event → Reply
unfolding begin_headers_outbound recv_header_outbound frame_recv_outbound stream_close_outbound
    data_chunk_recv
on_event_outbound env s (begin_headers frame) = begin_headers_outbound s frame
on_event_outbound env s (header frame name value) = recv_header_outbound s frame name value
on_event_outbound env s (frame_recv frame) = frame_recv_outbound s frame
on_event_outbound env s (stream_close stream_id error_code) =
    stream_close_outbound env.terminated s stream_id
on_event_outbound env s (data_chunk stream_id bytes) = data_chunk_recv s stream_id bytes

-- A sequence of calls, with all that they asked of the system.
unfoldable pub run_events :
    (Session → Event → Reply) → Session → List Event → Result (Session × List Effect)
run_events on s [] = ok (s, [])
run_events on s (e ∷ es) = elim (on s e) [
  | throw x ↦ throw x
  | ok (s', effects, rv) ↦ elim (run_events on s' es) [
    | throw x ↦ throw x
    | ok (s'', more) ↦ ok (s'', effects ++ more)
  ]
]
