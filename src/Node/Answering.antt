-- ===== src/Node/Answering.antt =====
-- node.cpp and session.cpp: what a response does to the session of a node.
use wshttp.Prelude.{
  ℕ, ◌≡◌, refl, sym, ◌∙◌, subst, String, inl, inr, true, false, Option, List, [], All, arith,
}
use wshttp.Prelude.Outcome.{Result, ok, throw, null_access, Result-cases}
use wshttp.Maps.{nat_key}
use wshttp.Address.Ip.{IpAddress, path_to_string}
use wshttp.Stream.{outbound, callback_failure}
use wshttp.Session.{Session, new_session}
use wshttp.Session.Hooks.{
  Frame, Event, header, data_chunk, Environment, skips_response, on_event_outbound, run_events,
}
use wshttp.Session.Transfer.{Driver}
use wshttp.Session.Setup.{
  Net, new_ssl_outbound, local_address, init_internals_outbound, initialize_outbound,
  submit_settings, send_initial_outbound, config_send_initial, event_cb,
}
use wshttp.Session.Outbound.{IsNoChunk, run_events_unchanged, fails_without_streams}
use wshttp.Node.{make_outbound}

-- A session that knows of no stream.
abbrev NoStreams : Session → Type 0
NoStreams s = (s.streams ≡ []) × (s.user_data ≡ [])

make_outbound-NoStreams :
    (net : Net) (fd : Option ℕ) (local : Option IpAddress) (name : String) (s : Session)
    → make_outbound net fd local name ≡ ok s
    → (s.dir ≡ outbound) × NoStreams s
unfolding make_outbound init_internals_outbound new_ssl_outbound new_session
make_outbound-NoStreams net fd local name s made = ground (arith, made)

-- The session has its streams and user data as before.
abbrev KeepsStreams : Session → Result Session → Type 0
KeepsStreams s (throw x) = Unit
KeepsStreams s (ok t) = (t.streams ≡ s.streams) × (t.user_data ≡ s.user_data)

initialize_outbound-KeepsStreams :
    (net : Net) (s : Session) → KeepsStreams s (initialize_outbound net s)
unfolding initialize_outbound
initialize_outbound-KeepsStreams net s = elim (Result-cases (local_address net s.fd (ok s.host))) [
  | inl (x, thrown) ↦ rw thrown (ground arith)
  | inr (local, made) ↦ rw made (ground arith)
]

submit_settings-KeepsStreams : (net : Net) (s : Session) → KeepsStreams s (submit_settings net s)
unfolding submit_settings
submit_settings-KeepsStreams net s = ground arith

event_cb-NoStreams :
    (net : Net) (d : Driver) (s t : Session)
    → s.dir ≡ outbound
    → event_cb net d s true [] ≡ ok t
    → NoStreams s
    → NoStreams t
unfolding event_cb config_send_initial send_initial_outbound
event_cb-NoStreams net d s t out did none_yet =
    elim (Result-cases (path_to_string net.big_endian net.printer s.ends)) [
      | inl (x, thrown) ↦ absurd (ground (arith, did, thrown))
      | inr (msg, printed) ↦ elim (Result-cases (initialize_outbound net s)) [
        | inl (x, thrown) ↦ absurd (ground (arith, did, printed, out, thrown))
        | inr (u, set) ↦
            let sent : send_initial_outbound net u ≡ ok t =
              sym (rw (event_cb, printed, config_send_initial, out, set) refl) ∙ did in
            let (streams, user_data) =
              subst (KeepsStreams s) set (initialize_outbound-KeepsStreams net s) in
            let (streams', user_data') =
              subst (KeepsStreams u) sent (submit_settings-KeepsStreams net u) in
            (streams' ∙ streams ∙ none_yet.0, user_data' ∙ user_data ∙ none_yet.1)
      ]
    ]

-- On a session that a node has made, and that has been configured when its connection stood, no
-- response comes through: whatever calls nghttp2 makes first, without data, every hook returns and
-- leaves the session as it was; then the header of a response fails the callback, and a chunk of its
-- data is delivered through a null pointer.
pub response_fails :
    (env : Environment) (net at_event : Net) (d : Driver) (fd : Option ℕ) (local : Option IpAddress)
    (name : String) (s t : Session) (es : List Event) (frame : Frame) (field value bytes : List ℕ)
    (id : ℕ)
    → make_outbound net fd local name ≡ ok s
    → event_cb at_event d s true [] ≡ ok t
    → All IsNoChunk es
    → skips_response frame ≡ false
    → (run_events (on_event_outbound env) t es ≡ ok (t, []))
      × (on_event_outbound env t (header frame field value) ≡ ok (t, [], callback_failure))
      × (on_event_outbound env t (data_chunk id bytes) ≡ throw null_access)
response_fails env net at_event d fd local name s t es frame field value bytes id made set calm
      taken =
    let (dir, none_yet) = make_outbound-NoStreams net fd local name s made in
    let (streams, user_data) = event_cb-NoStreams at_event d s t dir set none_yet in
    let (header_fails, chunk_fails) =
      fails_without_streams env t frame field value bytes id streams user_data taken in
    (run_events_unchanged env t es streams calm, header_fails, chunk_fails)
