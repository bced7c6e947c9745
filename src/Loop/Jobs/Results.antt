-- ===== src/Loop/Jobs/Results.antt =====
-- loop.cpp: the queue of jobs where a job may throw, after which nothing runs any more.
use wshttp.Prelude.{◌≡◌, ◌∙◌, refl, List, [], ◌∷◌, ◌++◌, inl, inr}
use wshttp.Prelude.Outcome.{Exception, Result, ok, throw, ◌>>=◌, Result-cases}
use mathlib.Core.List.{append_assoc, append-nil}
use wshttp.Loop.Jobs.{Loop, execute, drain, call_soon}

module _ {ℓ κ} {S : Type ℓ} {J : Type κ} (run_job : J → S → Result S) where
  -- A job of the loop that posts no other.
  abbrev pub running : J → Result S → Result S × List J
  running job world = (world >>= λ s. run_job job s, [])

  abbrev pub run_each : List J → S → Result S
  run_each [] s = ok s
  run_each (job ∷ jobs) s = run_job job s >>= run_each jobs

  -- Jobs are posted one by one, on the loop's thread.
  abbrev pub post_each : List J → Loop (Result S) J → Loop (Result S) J
  post_each [] l = l
  post_each (job ∷ jobs) l = post_each jobs (call_soon running job l)

  drain_failed :
      (jobs : List J) (l : Loop (Result S) J) (e : Exception)
      → l.world ≡ throw e
      → ((drain running jobs l).world ≡ throw e) × ((drain running jobs l).job_queue ≡ l.job_queue)
  unfolding drain execute
  drain_failed [] l e thrown = (thrown, refl)
  drain_failed (job ∷ jobs) l e thrown =
      let (stays, queue) = drain_failed jobs (execute running job l) e (rw thrown refl) in
      (stays, queue ∙ append-nil l.job_queue)

  -- A pass runs the jobs one after the other, up to the first exception.
  pub drain-run_each :
      (jobs : List J) (s : S)
      → ((drain running jobs (record { world = ok s; job_queue = [] })).world ≡ run_each jobs s)
        × ((drain running jobs (record { world = ok s; job_queue = [] })).job_queue ≡ [])
  unfolding drain execute
  drain-run_each [] s = (refl, refl)
  drain-run_each (job ∷ jobs) s = elim (Result-cases (run_job job s)) [
    | inl (e, thrown) ↦ rw (drain, execute, thrown) (drain_failed jobs _ e refl)
    | inr (s', ran) ↦ rw (drain, execute, ran) (drain-run_each jobs s')
  ]

  pub post_each-append :
      (jobs : List J) (l : Loop (Result S) J)
      → post_each jobs l ≡ record l { job_queue = l.job_queue ++ jobs }
  unfolding call_soon
  post_each-append [] l = simp append-nil
  post_each-append (job ∷ jobs) l =
      post_each-append jobs (call_soon running job l) ∙ simp append_assoc
