-- ===== src/Session/Answers.antt =====
-- session.cpp and stream.cpp: how many answers an inbound session is to give, and on which streams.
pub mod Given
use mathlib.Core.List.{append_assoc}
use wshttp.Prelude.{
  ℕ, ◌≡◌, refl, sym, ap, ◌∙◌, subst, Bool, true, false, not, ◌&&◌, Option, none, some, List, [],
  ◌∷◌, ◌++◌, if◌then◌else◌, Bool-cases, Option-cases, inl, inr, arith, nat_eqb, nat_eqb_iff,
}
use wshttp.Prelude.Outcome.{ok, throw, Result-cases}
use wshttp.Maps.{find, assign, try_emplace, erase, is_some, nat_key}
use wshttp.Maps.Laws.{find_of_empty, find-assign, find-erase, find-try_emplace, try_emplace_made}
use wshttp.Request
use wshttp.Request.{field_name, span_equal}
use wshttp.Stream
use wshttp.Stream.{
  Effect, submitted_response, submitted_rst_stream, Os, Stream, errlen, take, send_error,
  send_error_body, answer_from_pipe, answer_from_file, send_response, recv_frame, recv_path_header,
  stream_d, strip_slashes,
}
use wshttp.Uri.{to_bool, path}
use wshttp.Uri
use wshttp.Session.{Session}
use wshttp.Session.Hooks.{
  Reply, Frame, Event, begin_headers, header, frame_recv, stream_close, data_chunk, Environment,
  on_event_inbound, run_events, skips_request, ends_request, call_stream, begin_headers_inbound,
  recv_header_inbound, frame_recv_inbound, stream_close_inbound, fill_stream, make_stream, released,
}
use wshttp.Session.Streams.{IsSound, Keeps-ok, on_event-Keeps}
use wshttp.Session.Connection.{Any, admits}

-- The streams that are answered, in order: by a response that nghttp2 accepts, or by a reset.
abbrev pub answer : Effect → List ℕ
answer (submitted_response id fd headers accepted) = if accepted then id ∷ [] else []
answer (submitted_rst_stream id) = id ∷ []
answer _ = []

abbrev pub answers : List Effect → List ℕ
answers [] = []
answers (e ∷ es) = answer e ++ answers es

-- Which streams are open.
abbrev pub Open : Type 0
Open = ℕ → Bool

-- What a session is to do: a request that ends on an open stream is answered, once.
abbrev pub due : Open → Event → List ℕ
due o (frame_recv frame) =
    if ends_request frame && o frame.stream_id then frame.stream_id ∷ [] else []
due o _ = []

abbrev pub opened_by : Open → Event → Open
opened_by o (begin_headers frame) j =
    if not (skips_request frame) && nat_eqb frame.stream_id j then true else o j
opened_by o (stream_close id error_code) j = if nat_eqb id j then false else o j
opened_by o (header frame name value) j = o j
opened_by o (frame_recv frame) j = o j
opened_by o (data_chunk id bytes) j = o j

abbrev pub all_due : Open → List Event → List ℕ
all_due o [] = []
all_due o (e ∷ es) = due o e ++ all_due (opened_by o e) es

-- The page of the error fits into the pipe, and nghttp2 accepts a response or a reset.
abbrev pub IsWilling : Os → Type 0
IsWilling os =
    (os.write_count (take (errlen os) os.html_object) ≡ some (errlen os))
    × (os.response_accepted ≡ true)
    × (os.rst_accepted ≡ true)

pub answers-append : (es fs : List Effect) → answers (es ++ fs) ≡ answers es ++ answers fs
answers-append [] fs = refl
answers-append (e ∷ es) fs =
    rw (answers-append es fs) (sym (append_assoc (answer e) (answers es) (answers fs)))

send_error_body-answers :
    (os : Os) (st : Stream) (read_end write_end : ℕ)
    → IsWilling os
    → answers (send_error_body os st read_end write_end).1 ≡ st.id ∷ []
unfolding send_error_body answer_from_pipe send_response
send_error_body-answers os st read_end write_end fits = ground (arith, fits.0, fits.1, fits.2)

pub recv_frame-answers :
    (os : Os) (st : Stream) → IsWilling os → answers (recv_frame os st).1 ≡ st.id ∷ []
unfolding recv_frame send_error answer_from_file send_response to_bool Uri.empty
recv_frame-answers os st fits = elim (Option-cases (os.open_file (strip_slashes (path st.req)))) [
  | inr (fd, found) ↦ rw (recv_frame, found, answer_from_file, send_response, fits.1) refl
  | inl missing ↦ elim (Option-cases os.make_pipe) [
    | inl no_pipe ↦ rw (recv_frame, missing, send_error, no_pipe) refl
    | inr (pipe, made) ↦
        rw (recv_frame, missing, send_error, made)
          (send_error_body-answers os st pipe.0 pipe.1 fits)
  ]
]
