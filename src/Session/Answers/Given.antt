-- ===== src/Session/Answers/Given.antt =====
-- session.cpp and stream.cpp: the answers that an inbound session gives.
use wshttp.Prelude.{ℕ, ◌≡◌, List}
use wshttp.Prelude.Outcome.{ok, throw}
use wshttp.Maps.{find, is_some, nat_key}
use wshttp.Request
use wshttp.Stream
use wshttp.Stream.{
  submitted_response, submitted_rst_stream, Stream, errlen, take, send_error, send_error_body,
  answer_from_pipe, answer_from_file, send_response, strip_slashes,
}
use wshttp.Session.{Session}
use wshttp.Session.Hooks.{Reply}
use wshttp.Session.Answers.{answers, Open}

-- What a hook asks for, and which streams it leaves.
abbrev Does : (fx : List ℕ) → Open → Reply → Type 0
Does fx o (throw _) = ⊥
Does fx o (ok (t, effects, _)) =
    (answers effects ≡ fx) × ((j : ℕ) → o j ≡ is_some (find j t.streams))

abbrev Agrees : Open → Session → Type 0
Agrees o s = (j : ℕ) → o j ≡ is_some (find j s.streams)
