-- ===== src/Loop/Waker.antt =====
-- loop.hpp and loop.cpp: the job queue as the threads see it, statement by statement. `call_soon`
-- has two steps, under the lock and after it, between which other threads may run; so has the
-- loop's own thread, from the waker's event over the swap to each single job.
pub mod Wakeups
pub mod Draining
pub mod Refinement
use wshttp.Prelude.{ℕ, ◌+◌, ◌-◌, ◌<◌, ◌≡◌, Bool, true, false, List, [], ◌∷◌, ◌++◌}

-- Where the loop's thread stands: in libevent; in the waker's callback before the swap; in the loop
-- that runs the swapped jobs; or out of `event_base_loop`.
pub data Phase : Type 0 where
  waiting swapping draining stopped : Phase

-- `between` counts the threads that have queued a job and not activated the waker yet. `ran` and
-- `posted` are histories: the jobs that have run, and those queued, in the order of the lock.
pub record System {ℓ} (J : Type ℓ) : Type ℓ where
  pub job_queue : List J
  pub waker : Bool
  pub between : ℕ
  pub phase : Phase
  pub swapped_queue : List J
  pub ran : List J
  pub posted : List J

module _ {ℓ} {J : Type ℓ} where
  -- After the constructor of the loop.
  unfoldable pub started : System J
  started = record {
    job_queue = [];
    waker = false;
    between = 0;
    phase = waiting;
    swapped_queue = [];
    ran = [];
    posted = [];
  }

  -- `job_queue.emplace(f)`, under the lock.
  unfoldable pub push_job : J → System J → System J
  push_job f s = record s {
    job_queue = s.job_queue ++ f ∷ [];
    between = s.between + 1;
    posted = s.posted ++ f ∷ [];
  }

  -- `event_active(job_waker)`
  unfoldable pub activate_waker : System J → System J
  activate_waker s = record s { waker = true; between = s.between - 1 }

  -- libevent takes the event off its active ones and calls the callback.
  unfoldable pub waker_fires : System J → System J
  waker_fires s = record s { waker = false; phase = swapping }

  -- `job_queue.swap(swapped_queue)`, under the lock.
  unfoldable pub swap_queue : System J → System J
  swap_queue s = record s { job_queue = []; swapped_queue = s.job_queue; phase = draining }

  -- `job = front(); pop(); job();`
  unfoldable pub run_front : J → List J → System J → System J
  run_front f rest s = record s { swapped_queue = rest; ran = s.ran ++ f ∷ [] }

  unfoldable pub return_from_callback : System J → System J
  return_from_callback s = record s { phase = waiting }

  -- `event_base_loop` returns, after a break or an exit was asked for.
  unfoldable pub leave_loop : System J → System J
  leave_loop s = record s { phase = stopped }

  -- The steps that need no new call: those of the loop's thread, and the second half of `call_soon`.
  pub data Own (s t : System J) : Type ℓ where
    activate : 0 < s.between → t ≡ activate_waker s → Own s t
    fire : s.phase ≡ waiting → s.waker ≡ true → t ≡ waker_fires s → Own s t
    swap : s.phase ≡ swapping → t ≡ swap_queue s → Own s t
    run :
        (f : J) (rest : List J)
        → s.phase ≡ draining
        → s.swapped_queue ≡ f ∷ rest
        → t ≡ run_front f rest s
        → Own s t
    finish : s.phase ≡ draining → s.swapped_queue ≡ [] → t ≡ return_from_callback s → Own s t

  -- Any step: one of those, a call of `call_soon` by any thread, or the end of the loop.
  pub data Step (s t : System J) : Type ℓ where
    own : Own s t → Step s t
    post : (f : J) → t ≡ push_job f s → Step s t
    exit : s.phase ≡ waiting → t ≡ leave_loop s → Step s t

  pub data Reach (s : System J) : System J → Type ℓ where
    here : Reach s s
    later : {t u : System J} → Reach s t → Step t u → Reach s u
