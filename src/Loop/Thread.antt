-- ===== src/Loop/Thread.antt =====
-- loop.hpp and loop.cpp: the loop's thread, its start and its end, and the deleters that bring the
-- destruction of an object to it.
pub mod Shutdown
use wshttp.Prelude.{
  ℕ, Bool, true, false, ◌&&◌, List, [], ◌∷◌, ◌++◌, Option, none, some, if◌then◌else◌, ◌==◌, nat_eq,
}
use wshttp.Prelude.Outcome.{Result, ok, throw, system_error, ◌>>=◌, ◌>>◌}
use wshttp.Format.{Level, err, warn, info, debug}
use wshttp.Loop.Jobs.{Loop, call, call_get}
use wshttp.Loop.Timers.{Tickers, Watchers, stop_all}

-- What the callback that `setup_libevent_logging` sets does with a message: the level at which it is
-- logged, if any, and `abort`, which follows the `switch` in every case. The severities are
-- libevent's: 0 for debug, 1 for a message, 2 for a warning, 3 for an error.
pub data LogEffect : Type 0 where
  logged_at : Level → LogEffect
  aborted : LogEffect

unfoldable pub log_callback : (severity : ℕ) → List LogEffect
log_callback severity =
    (if severity == 3
      then logged_at err ∷ []
      else if severity == 2
      then logged_at warn ∷ []
      else if severity == 1
      then logged_at info ∷ []
      else if severity == 0
      then logged_at debug ∷ []
      else [])
    ++ aborted ∷ []

-- What the constructor asks of libevent and the system, outside Windows.
pub data ConfigFlag : Type 0 where
  precise_timer no_cache_time epoll_use_changelist : ConfigFlag

pub data StartEffect : Type 0 where
  set_log_callback use_pthreads made_config made_base made_job_waker started_thread : StartEffect
  set_flag : ConfigFlag → StartEffect

-- `setup_job_waker()`
unfoldable pub setup_job_waker : List StartEffect
setup_job_waker = made_job_waker ∷ []

-- The constructor, with the static flag `once` before and after it.
unfoldable pub new_event_loop : (once : Bool) → List StartEffect × Bool
unfolding setup_job_waker
new_event_loop once = (
  (if once then [] else set_log_callback ∷ use_pthreads ∷ [])
      ++ (made_config
          ∷ set_flag precise_timer
          ∷ set_flag no_cache_time
          ∷ set_flag epoll_use_changelist
          ∷ made_base
          ∷ setup_job_waker)
      ++ started_thread ∷ [],
  true,
)

-- How the thread is asked to leave `event_base_loop`.
pub data Ending : Type 0 where
  loopbreak loopexit : Ending

-- `loop_thread`: whether there is one, whether it can be joined still, and what it was asked last.
pub record LoopThread : Type 0 where
  pub present : Bool
  pub joinable : Bool
  pub asked : Option Ending

abbrev pub started_loop_thread : LoopThread
started_loop_thread = record { present = true; joinable = true; asked = none }

-- EDEADLK, with which `join` throws when a thread joins itself.
abbrev pub resource_deadlock_would_occur : ℕ
resource_deadlock_would_occur = 35

-- `stop_thread`; on another thread `join` returns once the loop's thread has ended.
unfoldable pub stop_thread : (in_event_loop immediate : Bool) → LoopThread → Result LoopThread
stop_thread in_event_loop immediate t =
    let ending : Option Ending = if immediate then some loopbreak else some loopexit in
    let t' : LoopThread = if t.present then record t { asked = ending } else t in
    if t.present && t.joinable
    then if in_event_loop
      then throw (system_error resource_deadlock_would_occur)
      else ok (record t' { joinable = false })
    else ok t'

-- The loop of the destructor over the table of handlers.
unfoldable pub stop_tables : (ℕ → Bool) → (deleted : Bool) → Tickers → Watchers → Watchers
stop_tables expired deleted [] ws = ws
stop_tables expired deleted ((id, ts) ∷ rest) ws =
    stop_tables expired deleted rest (stop_all expired deleted ts ws)

-- The destructor.
unfoldable pub destroy_loop :
    (in_event_loop : Bool)
    → (ℕ → Bool)
    → (deleted : Bool) → Tickers
    → Watchers
    → LoopThread
    → Result (LoopThread × Watchers)
unfolding stop_thread stop_tables
destroy_loop in_event_loop expired deleted tickers ws t = do
  t' ← stop_thread in_event_loop true t
  ok (t', stop_tables expired deleted tickers ws)

module _ {ℓ κ} {W : Type ℓ} {J : Type κ} (run : J → W → W × List J) where
  -- The deleter that `make_shared` gives a pointer; `delete_ptr` is the job that deletes the object.
  unfoldable pub loop_deleter : (in_event_loop : Bool) → (delete_ptr : J) → Loop W J → Loop W J
  unfolding call
  loop_deleter in_event_loop delete_ptr l = call run in_event_loop delete_ptr l

  -- The deleter that `shared_ptr` makes of another one.
  unfoldable pub wrapped_deleter {μ} :
      {A : Type μ} → (in_event_loop : Bool) → (f : W → W × A) → Loop W J → Loop W J × A
  unfolding call_get
  wrapped_deleter in_event_loop f l = call_get run in_event_loop f l
