-- ===== src/Loop/Timers/Firing.antt =====
-- loop.hpp and loop.cpp: what starting, stopping and firing do to a timer.
use wshttp.Prelude.{
  ℕ, zero, suc, ◌+◌, ◌*◌, ◌<◌, ◌≤◌, List, [], ◌∷◌, false, Bool-cases, inl, inr, ◌≡◌, refl, ap, ◌∙◌,
  ◌⊎◌, Bool, true, ◌||◌, some, arith, if◌then◌else◌,
}
use wshttp.Loop.Timers.{
  Watcher, task, task_then_again, loop_time_to_timeval, start, stop, init_event, on_timer,
  call_every,
}

-- A duration is split into seconds and fewer than a million microseconds.
pub loop_time_to_timeval_lem :
    (t : ℕ)
    → ((loop_time_to_timeval t).tv_sec * 1000000 + (loop_time_to_timeval t).tv_usec ≡ t)
      × ((loop_time_to_timeval t).tv_usec < 1000000)
unfolding loop_time_to_timeval
loop_time_to_timeval_lem t = omega arith

-- `start` and `stop` return true exactly if they change the timer: `start` where it was not running
-- and libevent takes the event, `stop` where it was running and libevent gives it up. The timer
-- then runs, or no longer does; else it is as it was.
pub start_stop_lem :
    (libevent : Bool) (w : Watcher)
    → (((start libevent w).1 ≡ true)
          × (w.is_running ≡ false)
          × (libevent ≡ true)
          × ((start libevent w).0.is_running ≡ true)
          × ((start libevent w).0.pending ≡ true)
        ⊎ ((start libevent w).1 ≡ false)
          × ((w.is_running ≡ true) ⊎ (libevent ≡ false))
          × ((start libevent w).0 ≡ w))
      × (((stop libevent w).1 ≡ true)
            × (w.is_running ≡ true)
            × (libevent ≡ true)
            × ((stop libevent w).0.is_running ≡ false)
            × ((stop libevent w).0.pending ≡ false)
          ⊎ ((stop libevent w).1 ≡ false)
            × ((w.is_running ≡ false) ⊎ (libevent ≡ false))
            × ((stop libevent w).0 ≡ w))
unfolding start stop
start_stop_lem true w = ground arith
start_stop_lem false w = ground arith

-- The time of the event comes `n` times.
unfoldable pub rounds : ℕ → Bool → Watcher → Watcher
rounds zero added w = w
rounds (suc n) added w = rounds n added (on_timer added w)

on_timer_idle : (added : Bool) (w : Watcher) → w.pending ≡ false → on_timer added w ≡ w
unfolding on_timer
on_timer_idle added w h = ground arith

rounds_idle : (n : ℕ) (added : Bool) (w : Watcher) → w.pending ≡ false → rounds n added w ≡ w
unfolding rounds
rounds_idle zero added w h = refl
rounds_idle (suc n) added w h = rw (on_timer_idle added w h) (rounds_idle n added w h)

abbrev ran_of : Watcher → ℕ
ran_of w = w.ran

left_alone :
    (n interval : ℕ) (start_immediately wait : Bool)
    → (rounds (suc n) true (call_every true interval start_immediately wait)).ran
      ≡ (if start_immediately || wait then 1 else 0)
unfolding rounds call_every on_timer
left_alone n interval true wait = ap ran_of (rounds_idle n true _ refl)
left_alone n interval false true = ap ran_of (rounds_idle n true _ refl)
left_alone n interval false false = ap ran_of (rounds_idle (suc n) true _ refl)

-- What happens to a timer: its time comes, or whoever has the handler that `call_every` returned
-- starts or stops it. The Boolean is what libevent answers.
pub data Use : Type 0 where
  comes started stopped : (libevent : Bool) → Use

unfoldable pub use_all : List Use → Watcher → Watcher
use_all [] w = w
use_all (comes b ∷ uses) w = use_all uses (on_timer b w)
use_all (started b ∷ uses) w = use_all uses (start b w).0
use_all (stopped b ∷ uses) w = use_all uses (stop b w).0

-- How often the handler is stopped.
abbrev pub stops : List Use → ℕ
stops [] = 0
stops (comes b ∷ uses) = stops uses
stops (started b ∷ uses) = stops uses
stops (stopped b ∷ uses) = suc (stops uses)

abbrev one_if : Bool → ℕ
one_if b = if b then 1 else 0

-- A timer that does not set itself again, and of whose runs, with the one to come, no more have been
-- than the handler was stopped and is running.
record Tame (budget : ℕ) (w : Watcher) : Type 0 where
  plain : w.f ≡ some task
  waits : w.is_running ≡ false → w.pending ≡ false
  bounded : w.ran + one_if w.pending ≤ budget + one_if w.is_running

on_timer-Tame : (n : ℕ) (b : Bool) (w : Watcher) → Tame n w → Tame n (on_timer b w)
unfolding on_timer
on_timer-Tame n b w t = elim (Bool-cases w.pending) [
  | inr idle ↦ rw (on_timer_idle b w idle) t
  | inl due ↦ record {
    plain = ground (arith, due, t.plain);
    waits = λ off. ground (arith, due, t.plain, off);
    bounded = ground (arith, due, t.plain, t.bounded);
  }
]

start-Tame : (n : ℕ) (b : Bool) (w : Watcher) → Tame n w → Tame n (start b w).0
unfolding start
start-Tame n b w t = record {
  plain = ground (arith, t.plain);
  waits = λ off. ground (arith, off, t.waits);
  bounded = ground (arith, t.waits, t.bounded);
}

stop-Tame : (n : ℕ) (b : Bool) (w : Watcher) → Tame n w → Tame (suc n) (stop b w).0
unfolding stop
stop-Tame n b w t = record {
  plain = ground (arith, t.plain);
  waits = λ off. ground (arith, off, t.waits);
  bounded = ground (arith, t.bounded);
}

use_all-bounded :
    (uses : List Use) (n : ℕ) (w : Watcher) → Tame n w → (use_all uses w).ran ≤ stops uses + n + 1
unfolding use_all
use_all-bounded [] n w t = ground (arith, t.bounded)
use_all-bounded (comes b ∷ uses) n w t = use_all-bounded uses n _ (on_timer-Tame n b w t)
use_all-bounded (started b ∷ uses) n w t = use_all-bounded uses n _ (start-Tame n b w t)
use_all-bounded (stopped b ∷ uses) n w t =
    omega (arith, use_all-bounded uses (suc n) _ (stop-Tame n b w t))

call_every-Tame :
    (added : Bool) (interval : ℕ) (start_immediately wait : Bool)
    → Tame 0 (call_every added interval start_immediately wait)
unfolding call_every
call_every-Tame added interval start_immediately wait = record {
  plain = ground arith;
  waits = ground arith;
  bounded = ground arith;
}

-- A timer made by `call_every` does not repeat: however often its time comes, and however the
-- handler is started and stopped meanwhile, its task runs at most once more than the handler is
-- stopped. Left alone it runs once if either flag is set and never else, whatever its interval, where
-- libevent takes its event.
pub call_every_once :
    (uses : List Use) (added : Bool) (n interval : ℕ) (start_immediately wait : Bool)
    → ((use_all uses (call_every added interval start_immediately wait)).ran ≤ stops uses + 1)
      × ((rounds (suc n) true (call_every true interval start_immediately wait)).ran
          ≡ (if start_immediately || wait then 1 else 0))
call_every_once uses added n interval start_immediately wait = (
  omega (arith, use_all-bounded uses 0 _ (call_every-Tame added interval start_immediately wait)),
  left_alone n interval start_immediately wait,
)

on_timer_again :
    (w : Watcher)
    → w.pending ≡ true
    → w.f ≡ some task_then_again
    → ((on_timer true w).pending ≡ true)
      × ((on_timer true w).f ≡ some task_then_again)
      × ((on_timer true w).ran ≡ suc w.ran)
unfolding on_timer
on_timer_again w p f = ground arith

rounds_again :
    (n : ℕ) (w : Watcher)
    → w.pending ≡ true
    → w.f ≡ some task_then_again
    → (rounds n true w).ran ≡ w.ran + n
unfolding rounds
rounds_again zero w p f = omega arith
rounds_again (suc n) w p f =
    let (p', f', more) = on_timer_again w p f in
    rounds_again n (on_timer true w) p' f' ∙ omega (arith, more)

-- The wrapper that `init_event` makes for a fixed interval does repeat: such a timer runs its task
-- each time, as long as libevent takes its event again.
pub fixed_interval_repeats :
    (n interval : ℕ) (w : Watcher)
    → w.is_running ≡ false
    → (rounds n true (init_event true w interval false true true)).ran ≡ w.ran + n
unfolding init_event
fixed_interval_repeats n interval w h =
    ground (arith, rounds_again n (init_event true w interval false true true))
