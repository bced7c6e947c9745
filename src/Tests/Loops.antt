-- ===== src/Tests/Loops.antt =====
-- The event loop (loop.hpp, loop.cpp).
use wshttp.Prelude.{ℕ, Bool, List, [], ◌∷◌, ◌<◌, ◌*◌, ◌+◌, ◌≤◌, ◌≡◌, ◌⊎◌, true, false, nat_eq, ◌==◌}
use wshttp.Loop.Jobs.{call_later, run_now}
use wshttp.Loop.Jobs.Order.{due, call_later-due}
use wshttp.Loop.Timers.{call_every, Tickers, Watchers}
use wshttp.Loop.Timers.Firing.{
  rounds, Use, comes, started, stopped, use_all, stops, call_every_once,
}

-- A job that the loop comes to 400 nanoseconds after the call, of a hook that is to wait a
-- microsecond.
call_later-due_example :
    (due true 100 500 (call_later true 1 100 500) ≡ 100 + 1 * 1000)
    × ((500 < 100 + 1 * 1000)
          × (due false 100 500 (call_later false 1 100 500) ≤ 100 + 1 * 1000)
          × (100 + 1 * 1000 < due false 100 500 (call_later false 1 100 500) + 1000)
        ⊎ (100 + 1 * 1000 ≤ 500) × (call_later false 1 100 500 ≡ run_now))
call_later-due_example = call_later-due 1 100 500

abbrev uses : List Use
uses = comes true ∷ stopped true ∷ started true ∷ comes true ∷ started true ∷ comes true ∷ []

call_every_once_example :
    ((use_all uses (call_every true 1000 true true)).ran ≤ stops uses + 1)
    × ((rounds 5 true (call_every true 1000 true true)).ran ≡ 1)
call_every_once_example = call_every_once uses true 4 1000 true true

-- The caller has the watchers 1 and 2, of which 1 has expired.
abbrev tickers : Tickers
tickers = (7, 1 ∷ 2 ∷ []) ∷ []

abbrev expired : ℕ → Bool
expired n = n == 1

abbrev running : Watchers
running = λ n. call_every true 1000 true true
