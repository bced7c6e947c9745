-- ===== src/Session/Transfer.antt =====
-- session.cpp: moving data between nghttp2 and the socket. The buffers of the `bufferevent` and the
-- state of nghttp2 are reached through the parameter `Driver`.
use wshttp.Prelude.{
  ℕ, Bool, not, ◌&&◌, Option, none, some, List, ◌++◌, length, leb, ltb, if◌then◌else◌,
}
use wshttp.Prelude.Outcome.{Result, ok, throw, runtime_error, null_access, ◌>>=◌}
use wshttp.Address.Ip.{Printer, to_string}
use wshttp.Stream.{Status, count, would_block}
use wshttp.Session.{Session, Http2}
use wshttp.Session.Hooks.{close_session}

-- `nghttp2_session_mem_recv2` on all the input, and `nghttp2_session_send`: each runs the hooks of
-- the session and says whether it succeeded.
pub record Driver : Type 0 where
  pub big_endian : Bool
  pub printer : Printer
  pub mem_recv : Session → Session × Bool
  pub send : Session → Session × Bool
  pub want_read : Session → Bool
  pub want_write : Session → Bool

-- `OUTPUT_BLOCK_THRESHOLD`
abbrev pub output_block_threshold : ℕ
output_block_threshold = 65536

-- What the functions of nghttp2 do with the pointer that they are given: a null one is read through.
abbrev pub with_session : Option Http2 → Result Session → Result Session
with_session none used = throw null_access
with_session (some _) used = used

-- The message of the exception prints the address of the remote end, which may throw first.
abbrev pub dispatch_failed : Driver → Session → Result Session
dispatch_failed d s = to_string d.big_endian d.printer s.ends.remote >>= λ _. throw runtime_error

unfoldable pub send_session_data : Driver → Session → Result Session
send_session_data d s =
    with_session s.http2 (let (s', sent) = d.send s in if sent then ok s' else dispatch_failed d s')

unfoldable pub read_session_data : Driver → Session → Result Session
unfolding send_session_data
read_session_data d s = with_session s.http2 (
    let (s', received) = d.mem_recv s in
    if not received then ok (close_session s') else send_session_data d s')

unfoldable pub write_session_data : Driver → Session → Result Session
unfolding send_session_data
write_session_data d s =
    if ltb 0 (length s.output)
    then ok s
    else with_session s.http2 (
        if not (d.want_read s) && not (d.want_write s)
        then ok (close_session s)
        else send_session_data d s)

-- The callbacks of the `bufferevent` for reading and writing.
unfoldable pub read_cb : Driver → Session → Result Session
unfolding read_session_data
read_cb d s = read_session_data d s

unfoldable pub write_cb : Driver → Session → Result Session
unfolding write_session_data
write_cb d s = write_session_data d s

unfoldable pub send_hook : Session → List ℕ → Session × Status
send_hook s bytes =
    if leb output_block_threshold (length s.output)
    then (s, would_block)
    else (record s { output = s.output ++ bytes }, count (length bytes))

-- The callback with which nghttp2 sends.
unfoldable pub send_callback : Session → List ℕ → Session × Status
unfolding send_hook
send_callback s bytes = send_hook s bytes
