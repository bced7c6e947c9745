-- ===== src/Loop/Thread/Shutdown.antt =====
-- loop.cpp: what the end of the loop does to its timers.
use wshttp.Prelude.{
  ℕ, ◌≡◌, refl, ◌∙◌, Bool, true, false, not, ◌&&◌, ◌||◌, [], ◌∷◌, if◌then◌else◌, arith, some,
}
use wshttp.Prelude.Outcome.{ok, throw, system_error}
use wshttp.Loop.Timers.{Tickers, Watchers, stop_all}
use wshttp.Loop.Timers.Handlers.{contains, halted, halted_twice, stop_all_lem}
use wshttp.Loop.Thread.{
  LoopThread, started_loop_thread, loopbreak, stop_thread, stop_tables, destroy_loop,
  resource_deadlock_would_occur,
}

-- Some caller's list names the watcher.
abbrev pub named : Tickers → ℕ → Bool
named [] n = false
named ((id, ts) ∷ rest) n = contains ts n || named rest n

stop_tables_lem :
    (expired : ℕ → Bool) (deleted : Bool) (tickers : Tickers) (ws : Watchers) (n : ℕ)
    → stop_tables expired deleted tickers ws n
      ≡ (if named tickers n && not (expired n) then halted deleted (ws n) else ws n)
unfolding stop_tables
stop_tables_lem expired deleted [] ws n = refl
stop_tables_lem expired deleted ((id, ts) ∷ rest) ws n =
    stop_tables_lem expired deleted rest (stop_all expired deleted ts ws) n
    ∙ rw (stop_all_lem expired deleted ts ws n) (ground (arith, halted_twice deleted (ws n)))

-- The end of the loop, on another thread than its own: its thread has been joined, and of each
-- caller every watcher that is still alive has lost its function and been stopped, whatever else is
-- in the table. On its own thread the end of the loop throws before it stops any.
pub destroy_loop_lem :
    (expired : ℕ → Bool) (deleted : Bool) (tickers : Tickers) (ws : Watchers)
    → ((t : LoopThread) × (ws' : Watchers) × (destroy_loop false expired deleted tickers ws
            started_loop_thread
          ≡ ok (t, ws'))
        × (t.joinable ≡ false)
        × ((n : ℕ)
            → ws' n ≡ (if named tickers n && not (expired n) then halted deleted (ws n) else ws n)))
      × (destroy_loop true expired deleted tickers ws started_loop_thread
          ≡ throw (system_error resource_deadlock_would_occur))
unfolding destroy_loop stop_thread
destroy_loop_lem expired deleted tickers ws = (
  (
    record { present = true; joinable = false; asked = some loopbreak },
    stop_tables expired deleted tickers ws,
    refl,
    refl,
    stop_tables_lem expired deleted tickers ws,
  ),
  refl,
)
