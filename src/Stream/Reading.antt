-- ===== src/Stream/Reading.antt =====
-- stream.cpp: the callback that reads the body of a response, and the path of a request.
use wshttp.Prelude.{
  ℕ, zero, suc, ◌≡◌, refl, ap, Bool, true, false, Option, none, some, List, [], ◌∷◌, ◌++◌,
  replicate, arith,
}
use wshttp.Stream.{
  eintr, other, ReadResult, got, failed, read_loop, conclude, file_read_callback, Status, count,
  temporal_callback_failure, data_flag_eof,
}

read_loop_interrupted :
    (k : ℕ) (r : ReadResult) (rest : List ReadResult) (ret : Option ℕ) (n : ℕ)
    → read_loop (r ∷ rest) eintr ≡ some (ret, n)
    → (m : ℕ) × (read_loop (replicate k (failed eintr) ++ r ∷ rest) eintr ≡ some (ret, m))
unfolding read_loop
read_loop_interrupted zero r rest ret n e = (n, e)
read_loop_interrupted (suc k) r rest ret n e =
    let (m, again) = read_loop_interrupted k r rest ret n e in (suc m, ground (arith, again))

after :
    (k : ℕ) (r : ReadResult) (rest : List ReadResult) (ret : Option ℕ) (n : ℕ)
    → {result : Status × Bool} → conclude ret ≡ result
    → read_loop (r ∷ rest) eintr ≡ some (ret, n)
    → (m : ℕ) × (file_read_callback (replicate k (failed eintr) ++ r ∷ rest) eintr
        ≡ some (result, m))
unfolding file_read_callback
after k r rest ret n c e =
    let (m, reached) = read_loop_interrupted k r rest ret n e in
    (m, rw (reached, file_read_callback) (ap (λ x. some (x, m)) c))

conclude_count : (n : ℕ) → conclude (some (suc n)) ≡ (count (suc n), false)
unfolding conclude
conclude_count n = ground arith

not_interrupted :
    (e : ℕ) (reads : List ReadResult)
    → file_read_callback reads (other e) ≡ some ((temporal_callback_failure, false), 0)
unfolding file_read_callback conclude
not_interrupted e [] = refl
not_interrupted e (_ ∷ reads) = refl

read_failed :
    (e : ℕ) (reads : List ReadResult) → read_loop (failed (other e) ∷ reads) eintr ≡ some (none, 1)
unfolding read_loop
read_failed e [] = refl
read_failed e (_ ∷ reads) = refl

-- The callback reads only if `errno` holds EINTR already when it is called. Otherwise it fails at
-- once, without a call of `read`, whatever there is to read. If `errno` does, it passes over the
-- interrupted calls, and then returns the count of bytes, or the flag for the end of the data as
-- its count where there are none, or fails with any other error.
pub file_read_callback_lem :
    (reads : List ReadResult) (e k n : ℕ)
    → (file_read_callback reads (other e) ≡ some ((temporal_callback_failure, false), 0))
      × ((m : ℕ) × (file_read_callback (replicate k (failed eintr) ++ got (suc n) ∷ reads) eintr
            ≡ some ((count (suc n), false), m)))
      × ((m : ℕ) × (file_read_callback (replicate k (failed eintr) ++ got 0 ∷ reads) eintr
            ≡ some ((data_flag_eof, true), m)))
      × ((m : ℕ) × (file_read_callback
              (replicate k (failed eintr) ++ failed (other e) ∷ reads)
              eintr
            ≡ some ((temporal_callback_failure, false), m)))
unfolding read_loop conclude
file_read_callback_lem reads e k n = (
  not_interrupted e reads,
  after k (got (suc n)) reads _ 1 (conclude_count n) refl,
  after k (got 0) reads _ 1 refl refl,
  after k (failed (other e)) reads _ 1 refl (read_failed e reads),
)
