-- ===== src/Program/Resting.antt =====
-- endpoint.cpp and loop.cpp: how the program comes to rest, once its jobs have run and it is shut down.
use wshttp.Prelude.{ℕ, String, ◌≡◌, refl, Option, none, [], if◌then◌else◌}
use wshttp.Prelude.Outcome.{ok}
use wshttp.Maps.{nat_key, string_key}
use wshttp.Address.Ip.{IpAddress}
use wshttp.Session.Hooks.{Environment}
use wshttp.Endpoint.{Endpoint, make}
use wshttp.Context.{Answers, Creds}
use wshttp.Endpoint.Tables.{shutdown_endpoint_lem}
use wshttp.Owned.{become, pass, outlived}
use wshttp.Owned.Passing.{emptied}
use wshttp.Program.{inbound_at, outbound_at, look}
use wshttp.Program.Places.{program}
use wshttp.Program.Steps.{Running, shut, Reach, IsOrderlyRun}
use wshttp.Program.Keeping.{Fine}
use wshttp.Program.Growing.{Sane-AreLive}
use wshttp.Program.Shutting.{emptied_endpoint, shut_looks}
use wshttp.Program.Running.{pass-Whole, program_runs-Whole}

-- Wherever an orderly run of the program has come (its listeners and nodes can be made, no session is
-- called back before it is configured, and nothing touches what a waiting job is to take away), for
-- addresses of IPv4 and nghttp2 that changes sessions by its hooks only and delivers no data to an
-- outbound one: a pass of the loop and a shutdown succeed, one after the other. Then no job waits, no
-- listener has a session, and a node has those sessions that no waiting job was to close.
pub program_comes_to_rest :
    (env : Environment) (i o : Answers) (c : Option Creds) (id : ℕ) (e : Endpoint) (w : Running)
    → (make i o c id).0 ≡ ok e
    → (run : Reach env (record { state = e; pending = [] }) (ok w))
    → IsOrderlyRun env (record { state = e; pending = [] }) (ok w) run
    → (v x : Running) × (pass program w ≡ ok v)
      × (shut v ≡ ok x)
      × (x.pending ≡ [])
      × ((port : ℕ) (remote : IpAddress) → look (inbound_at port remote) x.state ≡ none)
      × ((node name : String)
          → look (outbound_at node name) x.state ≡ (
              if emptied program Fine (outbound_at node name) w.pending
              then none
              else look (outbound_at node name) w.state))
unfolding shut become outlived look
program_comes_to_rest env i o c id e w did run orderly =
    let (v, ran, idle, whole, left) =
      pass-Whole w (program_runs-Whole env i o c id e (ok w) did run orderly) in
    (
      v,
      record {
        state = emptied_endpoint v.state;
        pending = outlived program (emptied_endpoint v.state) v.pending;
      },
      ran,
      rw (shut, shutdown_endpoint_lem v.state (Sane-AreLive v.state.listeners whole.sane)) refl,
      rw idle refl,
      λ port remote. shut_looks port remote v.state,
      λ node name. left (outbound_at node name),
    )
