-- ===== src/Loop/Timers.antt =====
-- loop.hpp and loop.cpp: the timers, `ev_watcher`, and the tables of them that the loop keeps.
-- What `event_add` and `event_del` return are arguments.
pub mod Firing
pub mod Handlers
use wshttp.Prelude.{
  ℕ, suc, ◌+◌, ◌*◌, ◌/◌, ◌%◌, Bool, true, false, not, ◌||◌, Option, none, some, List, [], ◌∷◌, ◌++◌,
  ◌==◌, nat_eq, if◌then◌else◌,
}
use wshttp.Maps.{Key, find, assign, nat_key}

-- `timeval`
pub record Timeval : Type 0 where
  pub tv_sec : ℕ
  pub tv_usec : ℕ

-- A duration in microseconds.
unfoldable pub loop_time_to_timeval : ℕ → Timeval
loop_time_to_timeval t = record { tv_sec = t / 1000000; tv_usec = t % 1000000 }

-- The function that a watcher holds: the task, or the wrapper that runs the task and then sets the
-- event again.
pub data Function : Type 0 where
  task : Function
  task_then_again : Function

-- `pending` says whether libevent holds the event, and `ran` counts the runs of the task.
pub record Watcher : Type 0 where
  pub is_running : Bool
  pub pending : Bool
  pub interval : Timeval
  pub f : Option Function
  pub ran : ℕ

-- `ev_watcher() = default`
abbrev pub new_watcher : Watcher
new_watcher = record {
  is_running = false;
  pending = false;
  interval = record { tv_sec = 0; tv_usec = 0 };
  f = none;
  ran = 0;
}

-- `start()`
unfoldable pub start : (added : Bool) → Watcher → Watcher × Bool
start added w =
    if w.is_running
    then (w, false)
    else if not added
    then (w, false)
    else (record w { is_running = true; pending = true }, true)

-- `stop()`
unfoldable pub stop : (deleted : Bool) → Watcher → Watcher × Bool
stop deleted w =
    if not w.is_running
    then (w, false)
    else if not deleted
    then (w, false)
    else (record w { is_running = false; pending = false }, true)

-- `init_event`
unfoldable pub init_event :
    (added : Bool) → Watcher → ℕ → (one_off start_immediately fixed_interval : Bool) → Watcher
unfolding start loop_time_to_timeval
init_event added w t one_off start_immediately fixed_interval =
    let w' : Watcher = record w {
      f = some (if one_off || not fixed_interval then task else task_then_again);
      interval = loop_time_to_timeval t;
      pending = false;
    } in
    if one_off || start_immediately then (start added w').0 else w'

-- Calling the function of a watcher.
unfoldable pub call_function : (added : Bool) → Function → Watcher → Watcher
call_function added task w = record w { ran = suc w.ran }
call_function added task_then_again w = record w { ran = suc w.ran; pending = added }

-- libevent runs the callback of an event whose time has come, and, as the event is not persistent,
-- first takes it off. The callback does nothing where the watcher has no function.
unfoldable pub on_timer : (added : Bool) → Watcher → Watcher
unfolding call_function
on_timer added w = if not w.pending then w else elim w.f [
  | none ↦ record w { pending = false }
  | some f ↦ call_function added f (record w { pending = false })
]

-- `fire()`
unfoldable pub fire : (added : Bool) → Watcher → Watcher
unfolding call_function
fire added w = elim w.f [ none ↦ w | some f ↦ record (call_function added f w) { pending = added } ]

-- `exec_iterative`
unfoldable pub exec_iterative : (added : Bool) → Watcher → Watcher
unfolding fire
exec_iterative added w = elim w.f [
  | none ↦ w
  | some f ↦ if not w.is_running then w else fire added w
]

-- `exec_oneshot`
unfoldable pub exec_oneshot : (added : Bool) → Watcher → Watcher
unfolding call_function
exec_oneshot added w = elim w.f [ none ↦ w | some f ↦ call_function added f w ]

-- `_call_every`, up to the table of handlers: `init_event` takes its Boolean arguments in the order
-- one_off, start_immediately, fixed_interval, and the last is left at its default.
unfoldable pub call_every_in_table :
    (added : Bool) → ℕ → (start_immediately fixed_interval : Bool) → Watcher
unfolding init_event
call_every_in_table added interval start_immediately fixed_interval =
    init_event added new_watcher interval start_immediately fixed_interval false

-- `call_every`
unfoldable pub call_every : (added : Bool) → ℕ → (start_immediately wait : Bool) → Watcher
unfolding call_every_in_table
call_every added interval start_immediately wait =
    call_every_in_table added interval start_immediately wait

-- `add_oneshot_event`
unfoldable pub add_oneshot_event : (added : Bool) → ℕ → Watcher
unfolding init_event
add_oneshot_event added delay = init_event added new_watcher delay true true false

-- `tickers`: for each caller its handlers, as names of watchers.
abbrev pub Tickers : Type 0
Tickers = List (ℕ × List ℕ)

-- The inner loop of `clear_old_tickers`, over one list.
unfoldable pub erase_expired : (ℕ → Bool) → List ℕ → List ℕ
erase_expired expired [] = []
erase_expired expired (t ∷ ts) =
    if expired t then erase_expired expired ts else t ∷ erase_expired expired ts

unfoldable pub clear_old_tickers : (ℕ → Bool) → Tickers → Tickers
unfolding erase_expired
clear_old_tickers expired [] = []
clear_old_tickers expired ((id, ts) ∷ rest) =
    (id, erase_expired expired ts) ∷ clear_old_tickers expired rest

-- `tickers[id].push_back(t)`
unfoldable pub push_ticker : ℕ → ℕ → Tickers → Tickers
push_ticker id t tickers = elim (find id tickers) [
  | none ↦ (id, t ∷ []) ∷ tickers
  | some ts ↦ assign id (ts ++ t ∷ []) tickers
]

-- `make_handler`, with the name of the watcher that it makes.
unfoldable pub make_handler : (ℕ → Bool) → ℕ → ℕ → Tickers → Tickers
unfolding clear_old_tickers push_ticker
make_handler expired id t tickers = push_ticker id t (clear_old_tickers expired tickers)

-- The watchers by their names; an expired one is not reached.
abbrev pub Watchers : Type 0
Watchers = ℕ → Watcher

unfoldable pub stop_all : (ℕ → Bool) → (deleted : Bool) → List ℕ → Watchers → Watchers
unfolding stop
stop_all expired deleted [] ws = ws
stop_all expired deleted (t ∷ ts) ws = stop_all expired deleted ts (
    if expired t then ws else λ n.
    if n == t then (stop deleted (record (ws t) { f = none })).0 else ws n)

-- `stop_tickers`
unfoldable pub stop_tickers : (ℕ → Bool) → (deleted : Bool) → ℕ → Tickers → Watchers → Watchers
unfolding stop_all
stop_tickers expired deleted id tickers ws = elim (find id tickers) [
  | none ↦ ws
  | some ts ↦ stop_all expired deleted ts ws
]
