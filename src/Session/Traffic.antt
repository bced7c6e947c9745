-- ===== src/Session/Traffic.antt =====
-- session.cpp: what goes out on a session, when it closes, and what it is set up with.
use wshttp.Prelude.{
  none, ℕ, zero, suc, ◌+◌, ◌≤◌, ◌<◌, ◌≡◌, refl, ◌∙◌, sym, ap, Bool, true, false, List, [], ◌∷◌,
  ◌++◌, length, length-append, arith, All, leb, ◌⊎◌, inl, inr, Bool-cases,
}
use mathlib.Core.List.{append_assoc, append-nil}
use wshttp.Prelude.Outcome.{ok, throw, null_access, bad_variant_access}
use wshttp.Address.Ip.Coherent.{AreCoherent, path_to_string-AreCoherent}
use wshttp.Request.Literals.{HasNoZero, span_equal-usp}
use wshttp.Stream.{Status, count, would_block}
use wshttp.Session.{Session}
use wshttp.Session.Hooks.{close_session}
use wshttp.Session.Transfer.{read_cb, write_cb, Driver, output_block_threshold, send_hook}
use wshttp.Session.Setup.{Net, config_send_initial, event_cb}

-- What happens to the output buffer: nghttp2 hands over bytes, or libevent writes the first of them
-- to the socket.
pub data Move : Type 0 where
  handed : List ℕ → Move
  flushed : ℕ → Move

abbrev pub split_at : ℕ → List ℕ → List ℕ × List ℕ
split_at zero xs = ([], xs)
split_at (suc n) [] = ([], [])
split_at (suc n) (x ∷ xs) = let (a, b) = split_at n xs in (x ∷ a, b)

-- The session, the bytes on the wire, and the bytes that `send_hook` reported as taken: as many of
-- the first ones as it returned.
pub record Line : Type 0 where
  pub session : Session
  pub wire : List ℕ
  pub taken : List ℕ

abbrev taken_bytes : Status → List ℕ → List ℕ
taken_bytes (count n) bytes = (split_at n bytes).0
taken_bytes _ bytes = []

pub move : Line → Move → Line
move l (handed bytes) =
    let (s, rv) = send_hook l.session bytes in
    record { session = s; wire = l.wire; taken = l.taken ++ taken_bytes rv bytes }
move l (flushed n) =
    let (out, rest) = split_at n l.session.output in
    record l { session = record (l.session) { output = rest }; wire = l.wire ++ out }

pub run_moves : Line → List Move → Line
run_moves l [] = l
run_moves l (m ∷ ms) = run_moves (move l m) ms

abbrev pub IsSmall : ℕ → Move → Type 0
IsSmall most (handed bytes) = length bytes ≤ most
IsSmall most (flushed _) = Unit

-- Nothing taken is lost, repeated or reordered, and the buffer stays bounded.
pub record Faithful (most : ℕ) (l : Line) : Type 0 where
  pub in_order : l.wire ++ l.session.output ≡ l.taken
  pub bounded : length l.session.output < output_block_threshold + most

split_at_join : (n : ℕ) (xs : List ℕ) → (split_at n xs).0 ++ (split_at n xs).1 ≡ xs
split_at_join zero xs = refl
split_at_join (suc n) [] = refl
split_at_join (suc n) (x ∷ xs) = ap (◌∷◌ x) (split_at_join n xs)

split_at_all : (xs : List ℕ) → (split_at (length xs) xs).0 ≡ xs
split_at_all [] = refl
split_at_all (x ∷ xs) = ap (◌∷◌ x) (split_at_all xs)

split_at_rest : (n : ℕ) (xs : List ℕ) → length (split_at n xs).1 ≤ length xs
split_at_rest zero xs = omega arith
split_at_rest (suc n) [] = omega arith
split_at_rest (suc n) (x ∷ xs) = omega (arith, split_at_rest n xs)

-- Refused with the buffer unchanged, or taken whole with the buffer under the threshold.
send_hook_cases :
    (s : Session) (bytes : List ℕ)
    → (send_hook s bytes ≡ (s, would_block))
      ⊎ ((length s.output < output_block_threshold)
          × (send_hook s bytes ≡ (record s { output = s.output ++ bytes }, count (length bytes))))
unfolding send_hook
send_hook_cases s bytes = elim (Bool-cases (leb output_block_threshold (length s.output))) [
  | inl full ↦ inl (rw (full, send_hook))
  | inr room ↦ inr (ground arith, rw (room, send_hook))
]

move-Faithful :
    (most : ℕ) (l : Line) (m : Move) → IsSmall most m → Faithful most l → Faithful most (move l m)
unfolding move
move-Faithful most l (handed bytes) h f = elim (send_hook_cases l.session bytes) [
  | inl e ↦ rw e (record { in_order = f.in_order ∙ sym (append-nil l.taken); bounded = f.bounded })
  | inr (room, e) ↦ rw e (record {
    in_order =
        rw (split_at_all bytes)
          (sym (append_assoc l.wire l.session.output bytes) ∙ ap (λ xs. xs ++ bytes) f.in_order);
    bounded = omega (arith, length-append l.session.output bytes);
  })
]
move-Faithful most l (flushed n) h f = record {
  in_order =
      append_assoc l.wire (split_at n l.session.output).0 _
      ∙ ap (◌++◌ l.wire) (split_at_join n l.session.output)
      ∙ f.in_order;
  bounded = omega (arith, split_at_rest n l.session.output);
}

-- Over any sequence of handing over and flushing, with at most `most` bytes handed over at a time,
-- the bytes on the wire followed by those in the buffer are the bytes that `send_hook` reported as
-- taken, by its count, in order; and the buffer holds fewer than the threshold and `most` bytes
-- together. The line is such at the start.
pub run_moves-Faithful :
    (most : ℕ) (l : Line) (ms : List Move)
    → All (IsSmall most) ms
    → Faithful most l
    → Faithful most (run_moves l ms)
unfolding run_moves
run_moves-Faithful most l [] h f = f
run_moves-Faithful most l (m ∷ ms) h f =
    run_moves-Faithful most (move l m) ms h.1 (move-Faithful most l m h.0 f)

pub event_cb_lem :
    (net : Net) (d : Driver) (s : Session) (b : ℕ) (alpn : List ℕ)
    → HasNoZero (b ∷ alpn)
    → (AreCoherent s.ends
        → (event_cb net d s true (b ∷ alpn) ≡ ok (close_session s))
          × (event_cb net d s true [] ≡ config_send_initial net d s)
          × (event_cb net d s false alpn ≡ ok (close_session s)))
      × ((¬ AreCoherent s.ends)
          → (connected : Bool) → event_cb net d s connected alpn ≡ throw bad_variant_access)
unfolding event_cb
event_cb_lem net d s b alpn h = (
  λ c.
      let (msg, printed) = (path_to_string-AreCoherent net.big_endian net.printer s.ends).0 c in
      (
        rw (event_cb, printed, span_equal-usp "h2" (b ∷ alpn) h) (ground arith),
        rw (event_cb, printed) refl,
        rw (event_cb, printed) refl,
      ),
  λ bad connected.
      rw (event_cb, (path_to_string-AreCoherent net.big_endian net.printer s.ends).1 bad) refl,
)

close_session_unset : (s : Session) → s.http2 ≡ none → (close_session s).http2 ≡ none
unfolding close_session
close_session_unset s e = ground (arith, e)

close_session_output : (s : Session) → s.output ≡ [] → (close_session s).output ≡ []
unfolding close_session
close_session_output s e = ground (arith, e)

-- A connection that negotiated a protocol without a zero byte in its name, "h2" among them, is to be
-- closed by a job; and if input, or room for output, comes before the loop has run that job, the
-- callback goes through the null pointer to the nghttp2 session that was never made. Both ends must
-- be printable, and no output waiting.
pub refused_session_fails :
    (net : Net) (d : Driver) (s : Session) (b : ℕ) (alpn : List ℕ)
    → HasNoZero (b ∷ alpn)
    → AreCoherent s.ends
    → s.http2 ≡ none
    → s.output ≡ []
    → (s' : Session) × (event_cb net d s true (b ∷ alpn) ≡ ok s')
      × (read_cb d s' ≡ throw null_access)
      × (write_cb d s' ≡ throw null_access)
unfolding read_cb write_cb
refused_session_fails net d s b alpn h printable unset empty =
    let still = close_session_unset s unset in
    (
      close_session s,
      ((event_cb_lem net d s b alpn h).0 printable).0,
      rw (read_cb, still) refl,
      rw (write_cb, close_session_output s empty, still) refl,
    )
