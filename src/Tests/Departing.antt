-- ===== src/Tests/Departing.antt =====
-- How sessions leave the program, (listener.cpp, session.cpp, loop.cpp).
use wshttp.Prelude.{◌≡◌, false, none, [], if◌then◌else◌}
use wshttp.Prelude.Outcome.{ok}
use wshttp.Session.Setup.{event_cb}
use wshttp.Owned.{callback, pass}
use wshttp.Owned.Passing.{emptied}
use wshttp.Program.{Place, look}
use wshttp.Program.Places.{program, same_place}
use wshttp.Program.Steps.{Running}
use wshttp.Program.Keeping.{Fine}
use wshttp.Program.Leaving.{failing_connection_leaves}
use wshttp.Tests.Samples.{env, net_at, idle_driver}
use wshttp.Tests.Running.{waiting}
use wshttp.Tests.Programs.{
  openssl, endpoint, made, connected, connected_run, connected_run-IsOrderlyRun, here_at, stands,
}

failing_connection_leaves_example :
    (v x : Running) × (callback program here_at
        (event_cb (net_at none) idle_driver waiting false [])
        connected
      ≡ ok v)
    × (pass program v ≡ ok x)
    × (x.pending ≡ [])
    × ((q : Place)
        → look q x.state ≡ (
            if same_place here_at q
            then none
            else if emptied program Fine q connected.pending
            then none
            else look q connected.state))
failing_connection_leaves_example =
    failing_connection_leaves env openssl openssl none 3 endpoint connected here_at waiting
      (net_at none) idle_driver [] made connected_run connected_run-IsOrderlyRun stands tt
