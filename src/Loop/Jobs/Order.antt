-- ===== src/Loop/Jobs/Order.antt =====
-- loop.hpp and loop.cpp: the order in which jobs run.
use wshttp.Prelude.{
  ℕ, ◌+◌, ◌*◌, ◌≤◌, ◌<◌, leb, Bool-cases, inl, inr, ◌≡◌, ◌⊎◌, refl, sym, ap, ◌∙◌, Bool, true, false,
  List, [], ◌∷◌, ◌++◌, arith,
}
use mathlib.Core.List.{append_assoc, append-nil}
use wshttp.Loop.Jobs.{
  Loop, execute, drain, process_job_queue, call_soon, call, call_get, Later, run_now,
  add_oneshot_event, call_later,
}

-- The time, in nanoseconds, at which the hook is run, or to which its timer is set: a timer is set
-- when the job runs, or at the call.
abbrev pub due : (in_event_loop : Bool) → (called now : ℕ) → Later → ℕ
due in_event_loop called now run_now = now
due true called now (add_oneshot_event delay) = called + delay * 1000
due false called now (add_oneshot_event delay) = now + delay * 1000

-- On the loop's thread the timer of a delayed call is set to the delay after the call exactly. Off it,
-- a hook that the loop comes to in time has its timer set to no later than that, and less than a
-- microsecond before it at the earliest; and one that the loop comes to late is run at once.
pub call_later-due :
    (delay called now : ℕ)
    → (due true called now (call_later true delay called now) ≡ called + delay * 1000)
      × ((now < called + delay * 1000)
            × (due false called now (call_later false delay called now) ≤ called + delay * 1000)
            × (called + delay * 1000
                < due false called now (call_later false delay called now) + 1000)
          ⊎ (called + delay * 1000 ≤ now) × (call_later false delay called now ≡ run_now))
unfolding call_later
call_later-due delay called now = (
  refl,
  elim (Bool-cases (leb (called + delay * 1000) now)) [
    | inl late ↦ inr (ground arith, rw late refl)
    | inr soon ↦
        let in_time : now < called + delay * 1000 = ground arith in
        inl (in_time, rw soon (omega (arith, in_time)), rw soon (omega (arith, in_time)))
  ],
)

module _ {ℓ} {J : Type ℓ} (posts : J → List J) where
  -- A job writes itself to a log, and posts the jobs that `posts` gives it.
  abbrev pub logging : J → List J → List J × List J
  logging job log = (log ++ job ∷ [], posts job)

  abbrev pub all_posts : List J → List J
  all_posts [] = []
  all_posts (job ∷ jobs) = posts job ++ all_posts jobs

  drain-logging :
      (jobs : List J) (l : Loop (List J) J)
      → drain logging jobs l
        ≡ record { world = l.world ++ jobs; job_queue = l.job_queue ++ all_posts jobs }
  unfolding drain execute
  drain-logging [] l = simp append-nil
  drain-logging (job ∷ jobs) l = drain-logging jobs (execute logging job l) ∙ (simp append_assoc)

  -- One pass over the queue runs exactly the jobs that it held, each once and in their order. The
  -- jobs that these post wait for the next pass, in the order in which they were posted.
  pub process_job_queue_order :
      (l : Loop (List J) J)
      → process_job_queue logging l
        ≡ record { world = l.world ++ l.job_queue; job_queue = all_posts l.job_queue }
  unfolding process_job_queue
  process_job_queue_order l = drain-logging l.job_queue _

  -- What the threads do: post a job from anywhere, call from the loop's own thread, or let the loop
  -- pass over its queue.
  pub data Action : Type ℓ where
    post : J → Action
    pass : Action

  unfoldable pub act : Loop (List J) J → Action → Loop (List J) J
  act l (post job) = call logging false job l
  act l pass = process_job_queue logging l

  unfoldable pub act_all : Loop (List J) J → List Action → Loop (List J) J
  act_all l [] = l
  act_all l (a ∷ actions) = act_all (act l a) actions

  abbrev pub posted : List Action → List J
  posted [] = []
  posted (post job ∷ actions) = job ∷ posted actions
  posted (pass ∷ actions) = posted actions

  pub all_posts_quiet : ((job : J) → posts job ≡ []) → (jobs : List J) → all_posts jobs ≡ []
  all_posts_quiet quiet [] = refl
  all_posts_quiet quiet (job ∷ jobs) = rw (quiet job) (all_posts_quiet quiet jobs)

  act_step :
      ((job : J) → posts job ≡ [])
      → (l : Loop (List J) J) (a : Action)
      → (act l a).world ++ (act l a).job_queue ≡ (l.world ++ l.job_queue) ++ posted (a ∷ [])
  unfolding act call call_soon
  act_step quiet l (post job) = sym (append_assoc l.world l.job_queue (job ∷ []))
  act_step quiet l pass = rw (process_job_queue_order l, all_posts_quiet quiet l.job_queue)

  -- Jobs that post none run first come, first served, however posting and passing interleave: the
  -- jobs run so far, followed by those that wait, are those run or waiting at the start followed
  -- by all that were posted since, in order.
  pub act_all_fifo :
      ((job : J) → posts job ≡ [])
      → (l : Loop (List J) J) (actions : List Action)
      → (act_all l actions).world ++ (act_all l actions).job_queue
        ≡ (l.world ++ l.job_queue) ++ posted actions
  unfolding act_all
  act_all_fifo quiet l [] = sym (append-nil _)
  act_all_fifo quiet l (post job ∷ actions) =
      act_all_fifo quiet (act l (post job)) actions
      ∙ ap (λ xs. xs ++ posted actions) (act_step quiet l (post job))
      ∙ append_assoc (l.world ++ l.job_queue) (job ∷ []) (posted actions)
  act_all_fifo quiet l (pass ∷ actions) =
      act_all_fifo quiet (act l pass) actions
      ∙ ap (λ xs. xs ++ posted actions) (act_step quiet l pass ∙ append-nil _)

  -- Off the loop's thread `call_get` sees the effect of every job that was queued before it; on the
  -- loop's thread it runs at once, before them.
  pub call_get_sees :
      (l : Loop (List J) J)
      → ((call_get logging false (λ log. (log, log)) l).1 ≡ l.world ++ l.job_queue)
        × ((call_get logging true (λ log. (log, log)) l).1 ≡ l.world)
  unfolding call_get
  call_get_sees l = (ap (λ (x : Loop (List J) J). x.world) (process_job_queue_order l), refl)
