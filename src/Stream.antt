-- ===== src/Stream.antt =====
-- include/wshttp/stream.hpp and src/stream.cpp: one HTTP/2 stream, and the response that it sends.
-- What the operating system and nghttp2 answer is the argument `Os`; what the code asks of them is
-- the list of effects that each function returns.
pub mod Reading
pub mod Handles
pub mod Files
use wshttp.Prelude.{
  ℕ, ◌-◌, String, Bool, true, false, not, Option, none, some, List, [], ◌∷◌, ◌++◌, codes, length,
  ◌==◌, nat_eq, if◌then◌else◌,
}
use wshttp.Request.{Headers, Code, ok_200, not_found_404, make_status, print}
use wshttp.Uri.{Uri, to_bool, path}

-- `enum class IO`
pub data Io : Type 0 where
  inbound outbound : Io

-- What the callbacks and hooks return: 0, a count of bytes, or a constant of nghttp2.
pub data Status : Type 0 where
  success : Status
  count : ℕ → Status
  callback_failure temporal_callback_failure would_block fatal : Status
  data_flag_eof : Status

-- A descriptor of -1 is `none`. The session of the stream is left to the session's own model.
pub record Stream : Type 0 where
  pub dir : Io
  pub id : ℕ
  pub fd : Option ℕ
  pub pipes : ℕ × ℕ
  pub req : Uri

pub data Effect : Type 0 where
  opened : (fd : ℕ) → Effect
  piped : (read_end write_end : ℕ) → Effect
  wrote : (fd : ℕ) (bytes : List ℕ) → Effect
  closed : (fd : Option ℕ) → Effect
  submitted_response : (id : ℕ) (fd : Option ℕ) (headers : Headers) (accepted : Bool) → Effect
  submitted_rst_stream : (id : ℕ) → Effect
  logged : List (ℕ × List ℕ) → Effect
  logged_data : (bytes : List ℕ) → Effect

-- `open`, `pipe`, and `write` with the count that it reports; whether
-- `nghttp2_submit_response2` and `nghttp2_submit_rst_stream` return 0; and the memory of the array
-- `req::errors::HTML`, which holds two pointers.
pub record Os : Type 0 where
  pub open_file : String → Option ℕ
  pub make_pipe : Option (ℕ × ℕ)
  pub write_count : List ℕ → Option ℕ
  pub response_accepted : Bool
  pub rst_accepted : Bool
  pub html_object : List ℕ

abbrev pub Step : Type 0
Step = Stream × List Effect × Status

-- The two constructors.
unfoldable pub new_stream : Io → ℕ → Uri → Stream
new_stream dir id req = record { dir = dir; id = id; fd = none; pipes = (0, 0); req = req }

unfoldable pub recv_data : Stream → List ℕ → Step
recv_data s bytes = (s, logged_data bytes ∷ [], success)

-- `recv_path_header`, with what `uri::parse` made of the path.
unfoldable pub recv_path_header : Stream → Uri → Step
recv_path_header s parsed =
    (record s { req = parsed }, [], if to_bool parsed then success else callback_failure)

unfoldable pub recv_header : Stream → Headers → Step
unfolding print
recv_header s hdr = (s, logged (print hdr) ∷ [], success)

-- `send_response`
unfoldable pub send_response : Os → Stream → Headers → List Effect × Status
send_response os s hdrs = (
  submitted_response s.id s.fd hdrs os.response_accepted ∷ [],
  if os.response_accepted then success else fatal,
)

abbrev is_success : Status → Bool
is_success success = true
is_success _ = false

-- The end of `send_error`, with the body in the pipe and its write end closed.
unfoldable pub answer_from_pipe : Os → Stream → ℕ → List Effect → Step
unfolding send_response
answer_from_pipe os s read_end done =
    let s' : Stream = record s { fd = some read_end } in
    let (sent, rv) = send_response os s' (make_status not_found_404) in
    if is_success rv
    then (s', done ++ sent, rv)
    else (s', done ++ sent ++ closed (some read_end) ∷ [], rv)

-- `sizeof(req::errors::HTML) - 1`
abbrev pub errlen : Os → ℕ
errlen os = length os.html_object - 1

abbrev pub take {ℓ} : {A : Type ℓ} → ℕ → List A → List A
take Prim.Native.Nat.zero xs = []
take (Prim.Native.Nat.suc n) [] = []
take (Prim.Native.Nat.suc n) (x ∷ xs) = x ∷ take n xs

abbrev counts : Option ℕ → ℕ → Bool
counts none n = false
counts (some m) n = m == n

unfoldable pub send_error_body : Os → Stream → ℕ → ℕ → Step
unfolding answer_from_pipe
send_error_body os s read_end write_end =
    let body = take (errlen os) os.html_object in
    let done : List Effect =
      piped read_end write_end ∷ wrote write_end body ∷ closed (some write_end) ∷ [] in
    let s' : Stream = record s { pipes = (read_end, write_end) } in
    if counts (os.write_count body) (errlen os)
    then answer_from_pipe os s' read_end done
    else (s', done ++ closed (some read_end) ∷ [], fatal)

unfoldable pub send_error : Os → Stream → Step
unfolding send_error_body
send_error os s = elim os.make_pipe [
  | none ↦ (s, submitted_rst_stream s.id ∷ [], if os.rst_accepted then success else fatal)
  | some (read_end, write_end) ↦ send_error_body os s read_end write_end
]

-- `while (path.starts_with('/')) path.remove_prefix(1);`
unfoldable pub strip_slashes : String → String
strip_slashes String.[] = ""
strip_slashes (String.◌∷◌ c s) =
    if Prim.Native.Char.code c == b'/' then strip_slashes s else String.◌∷◌ c s

-- The answer with the file that `open` returned.
unfoldable pub answer_from_file : Os → Stream → ℕ → Step
unfolding send_response
answer_from_file os s rv =
    let s' : Stream = record s { fd = some rv } in
    let (sent, status) = send_response os s' (make_status ok_200) in
    if is_success status
    then (s', opened rv ∷ sent, status)
    else (s', opened rv ∷ sent ++ closed (some rv) ∷ [], status)

unfoldable pub recv_frame : Os → Stream → Step
unfolding strip_slashes answer_from_file send_error
recv_frame os s =
    if not (to_bool s.req)
    then (s, [], callback_failure)
    else elim (os.open_file (strip_slashes (path s.req))) [
      | none ↦ send_error os s
      | some fd ↦ answer_from_file os s fd
    ]

-- `deleters::stream_d`
unfoldable pub stream_d : Stream → List Effect
stream_d s = elim s.fd [ none ↦ closed none ∷ [] | some _ ↦ [] ]

-- The answers of `read`, in order; `errno` is kept where it succeeds.
pub data Errno : Type 0 where
  eintr : Errno
  other : ℕ → Errno

pub data ReadResult : Type 0 where
  got : ℕ → ReadResult
  failed : Errno → ReadResult

-- `while (ret == -1 and errno == EINTR) ret = read(…);` with `ret` at -1: the result and the number
-- of calls. `none` where the list of answers ends before the loop.
unfoldable pub read_loop : List ReadResult → Errno → Option (Option ℕ × ℕ)
read_loop reads (other e) = some (none, 0)
read_loop [] eintr = none
read_loop (got n ∷ reads) eintr = some (some n, 1)
read_loop (failed e ∷ reads) eintr = elim (read_loop reads e) [
  | none ↦ none
  | some (r, n) ↦ some (r, Prim.Native.Nat.suc n)
]

-- What the callback returns, and whether it sets the flag for the end of the data.
unfoldable pub conclude : Option ℕ → Status × Bool
conclude none = (temporal_callback_failure, false)
conclude (some ret) = if ret == 0 then (data_flag_eof, true) else (count ret, false)

unfoldable pub file_read_callback : List ReadResult → Errno → Option ((Status × Bool) × ℕ)
unfolding read_loop conclude
file_read_callback reads errno = elim (read_loop reads errno) [
  | none ↦ none
  | some (ret, calls) ↦ some (conclude ret, calls)
]
