-- ===== src/Program/Failing.antt =====
-- listener.cpp, session.cpp and loop.cpp: what a listener that fails leaves to the jobs behind its own.
use wshttp.Prelude.{ℕ, ◌≡◌, refl, Bool, true, false, some, List, [], ◌∷◌, map, nat_eqb}
use wshttp.Prelude.Outcome.{throw, dangling_access}
use wshttp.Maps.{find, nat_key}
use wshttp.Maps.Laws.{find-erase}
use wshttp.Session.{Session, Posted}
use wshttp.Listener.{Listener, close_listener}
use wshttp.Endpoint.{Endpoint}
use wshttp.Endpoint
use wshttp.Owned.{Job, closes, does, run_job, run_jobs, pass, settle, post}
use wshttp.Program.{Place, perform, touches, put}
use wshttp.Program.Places.{program, Able, perform_looks, Able-put}
use wshttp.Program.Steps.{Running}

-- The listener, or the session, that the job points to goes with the listener under the port.
abbrev lost_with : ℕ → Job Place ℕ → Bool
lost_with port (closes p alive) = touches port p
lost_with port (does d alive) = nat_eqb port d

closed_performs :
    (port d : ℕ) (e : Endpoint)
    → nat_eqb port d ≡ true
    → perform d (Endpoint.close_listener port e) ≡ throw dangling_access
unfolding perform Endpoint.close_listener
closed_performs port d e same = rw (perform, find-erase port d e.listeners, same) refl

lost_job_dangles :
    (port : ℕ) (job : Job Place ℕ) (e : Endpoint)
    → lost_with port job ≡ true
    → run_job program job (Endpoint.close_listener port e) ≡ throw dangling_access
unfolding run_job
lost_job_dangles port (closes p false) e lost = refl
lost_job_dangles port (closes p true) e lost = rw (perform_looks port p e, lost) refl
lost_job_dangles port (does d false) e lost = refl
lost_job_dangles port (does d true) e lost = closed_performs port d e lost

-- Behind the job of a listener, a job that is lost with it.
lost_jobs_dangle :
    (port : ℕ) (job : Job Place ℕ) (jobs : List (Job Place ℕ)) (e : Endpoint)
    → Able port e
    → lost_with port job ≡ true
    → run_jobs program (does port true ∷ job ∷ jobs) e ≡ throw dangling_access
unfolding run_jobs run_job perform close_listener
lost_jobs_dangle port job jobs e (l, found, on) lost =
    rw
      (
        run_jobs,
        run_job,
        perform,
        close_listener,
        found,
        on,
        run_jobs,
        lost_job_dangles port job e lost,
      )
      refl

-- A listener whose job waits to close it. If it fails once more, or if one of its sessions asks to
-- be closed, before the loop makes its pass, then that pass uses the listener, or the session, after
-- it is gone. No other job waits at first, and the listener is on the port under which it stands.
pub failed_listener_strands :
    (w : Running) (port : ℕ) (l : Listener) (p : Place) (u : Session) (asked : Posted)
    (others : List Posted)
    → find port w.state.listeners ≡ some (some l)
    → l.local.port ≡ port
    → w.pending ≡ []
    → touches port p ≡ true
    → u.posted ≡ asked ∷ others
    → (pass program (post program port (post program port w)) ≡ throw dangling_access)
      × (pass program (settle program p u (post program port w)) ≡ throw dangling_access)
unfolding pass settle post
failed_listener_strands w port l p u asked others found on idle within posted = (
  rw
      (
        idle,
        lost_jobs_dangle port (does port true) [] w.state (l, found, on) (nat_key.same_refl port),
      )
      refl,
  rw
      (
        idle,
        posted,
        lost_jobs_dangle port (closes p true)
            (map {A = Posted} {B = Job Place ℕ} (λ _. closes p true) others)
            (put p (record u { posted = [] }) w.state)
            (Able-put port p (record u { posted = [] }) w.state (l, found, on)) within,
      )
      refl,
)
