-- ===== src/Server/Queue.antt =====
-- loop.cpp and session.cpp: the jobs of a server are those of the loop's own queue.
use wshttp.Prelude.{◌≡◌, refl, sym, List, [], ◌∷◌, map, inl, inr, ap, true}
use wshttp.Prelude.Outcome.{Result, ok, ◌>>=◌, Result-cases}
use wshttp.Address.Ip.{IpAddress}
use wshttp.Session.{Session, Posted}
use wshttp.Listener.{Listener}
use wshttp.Server.{Job, Server, settle, run_job, run_jobs, pass}
use wshttp.Loop.Jobs.Results.{running, run_each, post_each, drain-run_each, post_each-append}
use wshttp.Loop.Jobs.{Loop, process_job_queue}

-- A job of the loop that closes a session.
abbrev pub closing : Job → Result Listener → Result Listener × List Job
closing = running (λ job l. run_job l job)

-- The loop whose world is the listener.
abbrev pub as_loop : Server → Loop (Result Listener) Job
as_loop s = record { world = ok s.listener; job_queue = s.pending }

abbrev pub of_loop : Loop (Result Listener) Job → Result Server
of_loop l = l.world >>= λ listener. ok (record { listener = listener; pending = l.job_queue })

-- A session posts its jobs one by one, on the loop's thread.
abbrev pub post_all : List Job → Loop (Result Listener) Job → Loop (Result Listener) Job
post_all = post_each (λ job l. run_job l job)

run_each-run_jobs :
    (jobs : List Job) (l : Listener) → run_each (λ job l. run_job l job) jobs l ≡ run_jobs jobs l
unfolding run_jobs
run_each-run_jobs [] l = refl
run_each-run_jobs (job ∷ jobs) l = elim (Result-cases (run_job l job)) [
  | inl (e, thrown) ↦ rw thrown refl
  | inr (l', ran) ↦ rw ran (run_each-run_jobs jobs l')
]

-- A pass of a server is the pass of the loop over its queue, with the listener for its world; and
-- what a session has posted when a callback is over stands in that queue as `call_soon` puts it.
pass-process_job_queue :
    (s : Server) (key : IpAddress) (t : Session)
    → (of_loop (process_job_queue closing (as_loop s)) ≡ pass s)
      × ((as_loop (settle key t s)).job_queue
          ≡ (post_all
              (map {B = Job} (λ (_ : Posted). record { key = key; alive = true }) t.posted)
              (as_loop s)).job_queue)
unfolding process_job_queue pass settle
pass-process_job_queue s key t =
    let (world, jobs) = drain-run_each (λ job l. run_job l job) s.pending s.listener in
    (
      rw (world, jobs, run_each-run_jobs s.pending s.listener) refl,
      sym (ap queue (post_each-append (λ job l. run_job l job) _ (as_loop s))),
    )
  where
    queue : Loop (Result Listener) Job → List Job
    queue l = l.job_queue
