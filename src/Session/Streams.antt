-- ===== src/Session/Streams.antt =====
-- session.cpp: the streams of an inbound session, over any sequence of calls by nghttp2.
use wshttp.Prelude.{
  subst, ◌∙◌, ℕ, ◌≡◌, refl, sym, true, Option, none, some, List, [], ◌∷◌, ◌++◌, arith, All,
  Option-cases, Bool-cases, inl, inr, nat_eqb_iff, nat_eq,
}
use wshttp.Prelude.Outcome.{ok, throw}
use wshttp.Maps.{find, try_emplace, assign, erase, nat_key}
use wshttp.Maps.Laws.{find-assign, find-erase, find-try_emplace, try_emplace_made}
use wshttp.Request
use wshttp.Request.{field_name, span_equal}
use wshttp.Uri.{Uri, default_uri}
use wshttp.Stream
use wshttp.Stream.{
  Io, inbound, Stream, Effect, Os, Status, new_stream, recv_path_header, recv_frame, send_error,
  send_error_body, answer_from_pipe, answer_from_file,
}
use wshttp.Session.{Session}
use wshttp.Session.Hooks.{
  Reply, call_stream, make_stream, fill_stream, begin_headers_inbound, recv_header_inbound,
  frame_recv_inbound, stream_close_inbound, Event, begin_headers, header, frame_recv, stream_close,
  data_chunk, Environment, skips_request, ends_request, on_event_inbound, run_events, Frame,
}

-- What an entry of the map may hold at the key `k`: no null pointer, the stream of that id, and a
-- request that satisfies `P`.
abbrev pub Holds : (Uri → Type 0) → ℕ → Option Stream → Type 0
Holds P k none = ⊥
Holds P k (some st) = (st.id ≡ k) × (st.dir ≡ inbound) × P st.req

abbrev pub AreSound : (Uri → Type 0) → List (ℕ × Option Stream) → Type 0
AreSound P m = (k : ℕ) (v : Option Stream) → find k m ≡ some v → Holds P k v

abbrev pub IsSound : (Uri → Type 0) → Session → Type 0
IsSound P s = AreSound P s.streams

-- The hook returns, and leaves a sound session.
abbrev pub Keeps : (Uri → Type 0) → Reply → Type 0
Keeps P (throw _) = ⊥
Keeps P (ok (s, _, _)) = IsSound P s

-- Answering a request leaves the direction, the id and the request of the stream.
recv_frame_keeps :
    (os : Os) (st : Stream)
    → ((recv_frame os st).0.dir ≡ st.dir)
      × ((recv_frame os st).0.id ≡ st.id)
      × ((recv_frame os st).0.req ≡ st.req)
unfolding recv_frame
recv_frame_keeps os st = ground arith

module _ (P : Uri → Type 0) where
  assign-AreSound :
      (m : List (ℕ × Option Stream)) (id : ℕ) (st : Stream)
      → AreSound P m
      → Holds P id (some st)
      → AreSound P (assign id (some st) m)
  assign-AreSound m id st h new k v e =
      ground (arith, find-assign id k (some st) m, h k v, nat_eqb_iff id k)

  erase-AreSound :
      (m : List (ℕ × Option Stream)) (id : ℕ) → AreSound P m → AreSound P (erase id m).0
  erase-AreSound m id h k v e = ground (arith, find-erase id k m, h k v)

  call_stream-Keeps :
      (s : Session) (id : ℕ) (f : Stream → Stream.Step)
      → IsSound P s
      → ((st : Stream) → Holds P id (some st) → Holds P id (some (f st).0))
      → Keeps P (call_stream s id f)
  unfolding call_stream
  call_stream-Keeps s id f h keep = elim (Option-cases (find id s.streams)) [
    | inl e ↦ rw (e, call_stream) h
    | inr (none, e) ↦ absurd (h id none e)
    | inr (some st, e) ↦
        rw (e, call_stream) (assign-AreSound s.streams id (f st).0 h (keep st (h id (some st) e)))
  ]

  insert-AreSound :
      (m : List (ℕ × Option Stream)) (id : ℕ) (st : Stream)
      → AreSound P m
      → Holds P id (some st)
      → (try_emplace id none m).1 ≡ true
      → AreSound P (assign id (some st) (try_emplace id none m).0)
  insert-AreSound m id st h new made k v e = ground (
    arith,
    find-assign id k (some st) (try_emplace id none m).0,
    find-try_emplace id k none m,
    find-try_emplace id id none m,
    try_emplace_made id none m,
    h k v,
    nat_eqb_iff id k,
    nat_eqb_iff id id,
  )

  begin_headers-Keeps :
      (s : Session) (frame : Frame)
      → P default_uri
      → IsSound P s
      → Keeps P (begin_headers_inbound s frame)
  unfolding begin_headers_inbound fill_stream make_stream new_stream
  begin_headers-Keeps s frame start h = elim (Bool-cases (skips_request frame)) [
    | inl e ↦ rw (e, begin_headers_inbound) h
    | inr e ↦ elim (Bool-cases (try_emplace frame.stream_id none s.streams).1) [
      | inr old ↦ rw (e, old, begin_headers_inbound) h
      | inl made ↦
          rw (e, made, begin_headers_inbound)
            (insert-AreSound s.streams frame.stream_id
              (new_stream inbound frame.stream_id default_uri) h (refl, refl, start) made)
    ]
  ]

  recv_header-Keeps :
      (parse : List ℕ → Uri) (s : Session) (frame : Frame) (name value : List ℕ)
      → (span_equal (field_name Request.path) name ≡ true → P (parse value))
      → IsSound P s
      → Keeps P (recv_header_inbound parse s frame name value)
  unfolding recv_header_inbound recv_path_header
  recv_header-Keeps parse s frame name value parsed h = elim (Bool-cases (skips_request frame)) [
    | inl e ↦ rw (e, recv_header_inbound) h
    | inr e ↦ elim (Bool-cases (span_equal (field_name Request.path) name)) [
      | inr unlike ↦ rw (e, unlike, recv_header_inbound) h
      | inl path ↦
          rw (e, path, recv_header_inbound)
            (call_stream-Keeps s frame.stream_id (λ st. recv_path_header st (parse value)) h
              (λ st good. (good.0, good.1, parsed path)))
    ]
  ]

  -- Answering a request sets descriptors only.
  recv_frame-Holds :
      (os : Os) (id : ℕ) (st : Stream)
      → Holds P id (some st)
      → Holds P id (some (recv_frame os st).0)
  recv_frame-Holds os id st good =
      let (same_dir, same_id, same_req) = recv_frame_keeps os st in
      (same_id ∙ good.0, same_dir ∙ good.1, subst P (sym same_req) good.2)

  frame_recv-Keeps :
      (os : Os) (s : Session) (frame : Frame)
      → IsSound P s
      → Keeps P (frame_recv_inbound os s frame)
  unfolding frame_recv_inbound
  frame_recv-Keeps os s frame h = elim (Bool-cases (ends_request frame)) [
    | inr e ↦ rw (e, frame_recv_inbound) h
    | inl e ↦
        rw (e, frame_recv_inbound)
          (call_stream-Keeps s frame.stream_id (recv_frame os) h
            (λ st good. recv_frame-Holds os frame.stream_id st good))
  ]

  stream_close-Keeps : (s : Session) (id : ℕ) → IsSound P s → Keeps P (stream_close_inbound s id)
  unfolding stream_close_inbound
  stream_close-Keeps s id h = erase-AreSound s.streams id h

  -- What a header must bring for the invariant: `P` of the parsed value, if it is a path.
  abbrev pub Admits : Environment → Event → Type 0
  Admits env (header frame name value) =
      span_equal (field_name Request.path) name ≡ true → P (env.parse value)
  Admits env _ = Unit

  pub on_event-Keeps :
      (env : Environment) (s : Session) (e : Event)
      → P default_uri
      → Admits env e
      → IsSound P s
      → Keeps P (on_event_inbound env s e)
  unfolding on_event_inbound
  on_event-Keeps env s (begin_headers frame) start a h = begin_headers-Keeps s frame start h
  on_event-Keeps env s (header frame name value) start a h =
      recv_header-Keeps env.parse s frame name value a h
  on_event-Keeps env s (frame_recv frame) start a h = frame_recv-Keeps env.os s frame h
  on_event-Keeps env s (stream_close id error_code) start a h = stream_close-Keeps s id h
  on_event-Keeps env s (data_chunk id bytes) start a h = h

  pub Keeps-ok :
      (r : Reply)
      → Keeps P r
      → (t : Session) × (effects : List Effect) × (rv : Status) × (r ≡ ok (t, effects, rv))
        × IsSound P t
  Keeps-ok (throw x) k = absurd k
  Keeps-ok (ok (t, effects, rv)) k = (t, effects, rv, refl, k)

  -- Whatever nghttp2 calls, and in whatever order, on an inbound session with sound streams: no
  -- hook throws or reads through a null pointer, and at the end each entry of the map again holds
  -- the inbound stream with its key for id, whose request satisfies any `P` that holds of the
  -- empty address and of each path that a header brings.
  pub run_events-IsSound :
      (env : Environment) (s : Session) (es : List Event)
      → P default_uri
      → All (Admits env) es
      → IsSound P s
      → (s' : Session) × (effects : List Effect) × (run_events (on_event_inbound env) s es
          ≡ ok (s', effects))
        × IsSound P s'
  unfolding run_events
  run_events-IsSound env s [] start a h = (s, [], refl, h)
  run_events-IsSound env s (e ∷ es) start a h =
      let (t, first, rv, q, kept) =
        Keeps-ok (on_event_inbound env s e) (on_event-Keeps env s e start a.0 h) in
      let (last, more, reached, sound) = run_events-IsSound env t es start a.1 kept in
      (last, first ++ more, rw (q, reached, run_events), sound)
