-- ===== src/Loop/Jobs.antt =====
-- loop.hpp and loop.cpp: the queue of jobs, and how the other threads reach the loop. A job is a
-- value of `J`; running it changes a world `W` and may post further jobs.
pub mod Order
pub mod Results
use wshttp.Prelude.{
  ℕ, ◌+◌, ◌-◌, ◌*◌, ◌/◌, Bool, true, false, List, [], ◌∷◌, ◌++◌, leb, if◌then◌else◌,
}

pub record Loop {ℓ κ} (W : Type ℓ) (J : Type κ) : Type (ℓ ⊔ κ) where
  pub world : W
  pub job_queue : List J

module _ {ℓ κ} {W : Type ℓ} {J : Type κ} (run : J → W → W × List J) where
  -- Calling a job on the loop's thread.
  unfoldable pub execute : J → Loop W J → Loop W J
  execute job l =
      let (world, posted) = run job l.world in
      record { world = world; job_queue = l.job_queue ++ posted }

  -- `while (not swapped_queue.empty())`: the front is taken off and run.
  unfoldable pub drain : List J → Loop W J → Loop W J
  drain [] l = l
  drain (job ∷ swapped_queue) l = drain swapped_queue (execute job l)

  -- The queue is swapped with an empty one first.
  unfoldable pub process_job_queue : Loop W J → Loop W J
  unfolding drain
  process_job_queue l = drain l.job_queue (record l { job_queue = [] })

  unfoldable pub call_soon : J → Loop W J → Loop W J
  call_soon f l = record l { job_queue = l.job_queue ++ f ∷ [] }

  unfoldable pub call : (in_event_loop : Bool) → J → Loop W J → Loop W J
  unfolding execute call_soon
  call in_event_loop f l = if in_event_loop then execute f l else call_soon f l

  -- `call_get`: `ask` yields a value, or what it throws, and the world that it leaves. Off the
  -- loop's thread a job that keeps the promise goes to the end of the queue, and the caller waits
  -- for the loop to have run it.
  unfoldable pub call_get {μ} :
      {A : Type μ} → (in_event_loop : Bool) → (W → W × A) → Loop W J → Loop W J × A
  unfolding process_job_queue
  call_get in_event_loop ask l =
      let before = if in_event_loop then l else process_job_queue l in
      let (world, value) = ask before.world in (record before { world = world }, value)

-- What `call_later` does with its hook, at once or in the job that it posts: run it, or set a timer
-- of so many microseconds.
pub data Later : Type 0 where
  run_now : Later
  add_oneshot_event : (delay : ℕ) → Later

-- `called` is the time of the call, and `now` the time at which the job runs, in nanoseconds, as the
-- clock counts; `delay` is in microseconds, and `duration_cast` drops what is less than one.
unfoldable pub call_later : (in_event_loop : Bool) → (delay called now : ℕ) → Later
call_later in_event_loop delay called now =
    if in_event_loop
    then add_oneshot_event delay
    else let target_time = called + delay * 1000 in
      if leb target_time now then run_now else add_oneshot_event ((target_time - now) / 1000)
