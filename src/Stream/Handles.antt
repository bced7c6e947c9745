-- ===== src/Stream/Handles.antt =====
-- stream.cpp: the descriptors that answering a request opens and closes, and what the answer holds.
use wshttp.Prelude.{
  ℕ, ◌≡◌, ◌≢◌, refl, inl, inr, true, none, some, List, [], ◌∷◌, ◌++◌, arith, ◌==◌, nat_eq,
  if◌then◌else◌, Option-cases, Bool-cases,
}
use wshttp.Uri.{to_bool, path}
use wshttp.Stream.{
  Stream, Effect, opened, piped, wrote, closed, submitted_response, Os, Status, answer_from_pipe,
  errlen, take, send_error_body, send_error, answer_from_file, strip_slashes, recv_frame, stream_d,
}

abbrev drop_fd : ℕ → List ℕ → List ℕ
drop_fd fd [] = []
drop_fd fd (x ∷ xs) = if x == fd then drop_fd fd xs else x ∷ drop_fd fd xs

-- The descriptors that are open after some effects, from those that were.
abbrev pub held_after : List ℕ → List Effect → List ℕ
held_after fds [] = fds
held_after fds (opened fd ∷ es) = held_after (fd ∷ fds) es
held_after fds (piped r w ∷ es) = held_after (r ∷ w ∷ fds) es
held_after fds (closed (some fd) ∷ es) = held_after (drop_fd fd fds) es
held_after fds (_ ∷ es) = held_after fds es

-- The descriptors of the responses that nghttp2 took: it goes on reading from them.
abbrev pub answered : List Effect → List ℕ
answered [] = []
answered (submitted_response id (some fd) hdrs true ∷ es) = fd ∷ answered es
answered (_ ∷ es) = answered es

-- `pipe` returns two different descriptors.
abbrev pub HasDistinctPipe : Os → Type 0
HasDistinctPipe os = (r w : ℕ) → os.make_pipe ≡ some (r, w) → r ≢ w

abbrev pub Settled : Stream × List Effect × Status → Type 0
Settled (s, es, status) =
    (held_after [] es ≡ answered es) × (held_after [] (es ++ stream_d s) ≡ answered es)

answer_from_file-Settled : (os : Os) (s : Stream) (fd : ℕ) → Settled (answer_from_file os s fd)
unfolding answer_from_file stream_d
answer_from_file-Settled os s fd = ground arith

answer_from_pipe-Settled :
    (os : Os) (s : Stream) (r w : ℕ) (bytes : List ℕ)
    → r ≢ w
    → Settled (answer_from_pipe os s r (piped r w ∷ wrote w bytes ∷ closed (some w) ∷ []))
unfolding answer_from_pipe stream_d
answer_from_pipe-Settled os s r w bytes d = ground arith

send_error_body-Settled :
    (os : Os) (s : Stream) (r w : ℕ) → r ≢ w → s.fd ≡ none → Settled (send_error_body os s r w)
unfolding send_error_body stream_d
send_error_body-Settled os s r w d new = ground (
  arith,
  answer_from_pipe-Settled os (record s { pipes = (r, w) }) r w (take (errlen os) os.html_object) d,
)

send_error-Settled :
    (os : Os) (s : Stream) → HasDistinctPipe os → s.fd ≡ none → Settled (send_error os s)
unfolding send_error stream_d
send_error-Settled os s d new = elim (Option-cases os.make_pipe) [
  | inl e ↦ rw (e, send_error) (rw (new, stream_d) (refl, refl))
  | inr ((r, w), e) ↦ rw (e, send_error) (send_error_body-Settled os s r w (d r w e) new)
]

-- A request that reaches its end opens no descriptor that it does not either close again or leave
-- to an accepted response. Destroying the stream afterwards closes none: the descriptor of an
-- accepted response stays open.
pub recv_frame-Settled :
    (os : Os) (s : Stream) → HasDistinctPipe os → s.fd ≡ none → Settled (recv_frame os s)
unfolding recv_frame stream_d
recv_frame-Settled os s d new = elim (Bool-cases (to_bool s.req)) [
  | inr refused ↦ rw (refused, recv_frame) (rw (new, stream_d) (refl, refl))
  | inl parsed ↦ elim (Option-cases (os.open_file (strip_slashes (path s.req)))) [
    | inl e ↦ rw (parsed, e, recv_frame) (send_error-Settled os s d new)
    | inr (fd, e) ↦ rw (parsed, e, recv_frame) (answer_from_file-Settled os s fd)
  ]
]
