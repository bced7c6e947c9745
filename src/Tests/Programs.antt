-- ===== src/Tests/Programs.antt =====
-- Runs of the whole program (endpoint.cpp, listener.cpp, session.cpp, loop.cpp).
use wshttp.Prelude.{
  inr, ◌≡◌, ap, refl, subst, true, false, none, some, [], ◌∷◌, arith, if◌then◌else◌, ℕ, String,
}
use wshttp.Prelude.Outcome.{ok, throw, dangling_access}
use wshttp.Maps.{find, nat_key, try_emplace, assign, string_key}
use wshttp.Encoding.{big_to_host, byteswap_inplace, bswap_16, bswap_32, host_to_big}
use wshttp.Address.Ipv4.{of_in4}
use wshttp.Address.Ip.{
  IpAddress, of_port, of_sockaddr, equal, three_way, compare_ip, to_string, path_to_string,
}
use wshttp.Address.Ip.Keys.{ip_key}
use wshttp.Address.Ip.Coherent.{IsInet}
use wshttp.Session.{Session, new_session, listener_close_session}
use wshttp.Session.Hooks.{close_session}
use wshttp.Session.Setup.{event_cb, init_internals_inbound, local_address, new_ssl}
use wshttp.Session.Connection.{CallsOnly, finished}
use wshttp.Listener.{
  Listener, Binding, new_listener, init_internals, accept_cb, create_inbound_session, make_inbound,
}
use wshttp.Server.{LocalInet}
use wshttp.Context.{
  Answers, AppContext, init, init_inbound, init_outbound, new_ctx, common_flags, tls_server_method,
  tls_client_method,
}
use wshttp.Endpoint.{Endpoint, make, handle_ep_opt, listen}
use wshttp.Owned.{closes, become, outlived, callback, settle, post, pass}
use wshttp.Program.{Place, inbound_at, outbound_at, look, put, change_entry}
use wshttp.Program.Places.{program}
use wshttp.Program.Steps.{
  Running, Step, Reach, here, later, listens, accepts, calls, early, IsOrderly, IsOrderlyRun,
  accepted_event, listens_on, accept, shut,
}
use wshttp.Program.Keeping.{Fine, WholeResult}
use wshttp.Program.Running.{program_runs-Whole}
use wshttp.Program.Safety.{IsSafe, program_runs-Safe}
use wshttp.Session.Transfer.{write_cb}
use wshttp.Program.Resting.{program_comes_to_rest}
use wshttp.Program.Failing.{failed_listener_strands}
use wshttp.Owned.Passing.{emptied}
use wshttp.Tests.Samples.{env, net_at, idle_driver}
use wshttp.Tests.Running.{name, peer, waiting}

abbrev pub openssl : Answers
openssl = record {
  ctx_made = true;
  paths_set = true;
  key_read = true;
  certificate_read = true;
  key_checked = true;
}

abbrev contexts : AppContext
contexts = record {
  inbound = record (new_ctx tls_server_method) { system_paths = true; verify_peer = true };
  outbound = record (new_ctx tls_client_method) {
    options = common_flags [];
    system_paths = true;
    verify_peer = true;
  };
}

abbrev pub endpoint : Endpoint
endpoint = record {
  client_id = 4;
  ctx = some contexts;
  listeners = [];
  nodes = [];
  close_immediately = false;
}

abbrev pub started : Running
started = record { state = endpoint; pending = [] }

pub made : (make openssl openssl none 3).0 ≡ ok endpoint
unfolding make handle_ep_opt init init_inbound init_outbound
made = refl

abbrev binding : Binding
binding = record { big_endian = false; bound = some 7; sock_name = some name }

-- The listener, without sessions.
abbrev bound : Listener
bound = record {
  local = peer;
  sin_port = some 0xbb01;
  fd = some 7;
  error_cb_set = true;
  sessions = [];
}

abbrev listening : Running
listening = record {
  state = record (endpoint) { listeners = (443, some bound) ∷ [] };
  pending = [];
}

abbrev pub connected : Running
connected = record {
  state = record (endpoint) {
    listeners = (443, some (record (bound) { sessions = (peer, some waiting) ∷ [] })) ∷ [];
  };
  pending = [];
}

abbrev pub here_at : Place
here_at = inbound_at 443 peer

-- The connection has failed, and the session waits to be closed.
abbrev pub failed : Running
failed = record { state = connected.state; pending = closes here_at true ∷ [] }

bound_made : init_internals binding (new_listener 443) ≡ ok bound
unfolding init_internals new_listener of_sockaddr of_in4 big_to_host byteswap_inplace bswap_16
    bswap_32 host_to_big of_port
bound_made = refl

listened : listening ≡ listens_on binding 443 started
unfolding listens_on listen try_emplace assign find become outlived init_internals new_listener
    of_sockaddr of_in4 big_to_host byteswap_inplace bswap_16 bswap_32 host_to_big of_port
listened = refl

of_name : of_sockaddr false name ≡ ok peer
unfolding of_sockaddr of_in4 big_to_host byteswap_inplace bswap_16 bswap_32
of_name = refl

is_inet : LocalInet (net_at (some name))
is_inet n e = let same : name ≡ n = ground (arith, e) in subst IsInet same tt

bound_found : find 443 listening.state.listeners ≡ some (some bound)
unfolding find
bound_found = refl

accepted : ok connected ≡ accept 443 (net_at (some name)) name listening
unfolding accept accept_cb create_inbound_session make_inbound init_internals_inbound local_address
    new_ssl new_session try_emplace assign find become outlived of_sockaddr of_in4 big_to_host
    byteswap_inplace bswap_16 bswap_32 equal three_way compare_ip to_string
accepted = refl

pub stands : look here_at connected.state ≡ some (some waiting)
unfolding look find equal three_way compare_ip
stands = refl

unset : waiting.http2 ≡ none
unfolding new_session
unset = refl

idle-CallsOnly : CallsOnly env idle_driver
idle-CallsOnly s = (finished, finished)

failure :
    ok failed
    ≡ callback program here_at (event_cb (net_at none) idle_driver waiting false []) connected
unfolding callback settle put change_entry event_cb close_session new_session assign find equal
    three_way compare_ip path_to_string to_string
failure = refl

pub connected_run : Reach env started (ok connected)
connected_run =
    later (later here (listens binding 443 (ap ok listened)))
      (accepts 443 bound (net_at (some name)) name peer bound_found tt is_inet of_name accepted)

pub connected_run-IsOrderlyRun : IsOrderlyRun env started (ok connected) connected_run
unfolding IsOrderlyRun IsOrderly connected_run
connected_run-IsOrderlyRun = ((tt, λ free. (bound, bound_made, refl)), tt)

pub failed_run : Reach env started (ok failed)
failed_run = later connected_run (
    calls here_at waiting _ stands
      (accepted_event 443 peer (net_at none) idle_driver false [] idle-CallsOnly unset refl)
      failure)

failed_run-IsOrderlyRun : IsOrderlyRun env started (ok failed) failed_run
unfolding IsOrderlyRun IsOrderly failed_run
failed_run-IsOrderlyRun = (connected_run-IsOrderlyRun, tt)

-- Room for output before the session is configured.
too_early : Step env connected (callback program here_at (write_cb idle_driver waiting) connected)
too_early = early here_at waiting idle_driver _ stands unset (inr refl) refl

program_runs-Safe_example :
    IsSafe env connected
      (callback program here_at (write_cb idle_driver waiting) connected)
      too_early
program_runs-Safe_example =
    program_runs-Safe env openssl openssl none 3 endpoint connected
      (callback program here_at (write_cb idle_driver waiting) connected) made connected_run
      too_early

program_runs-Whole_example : WholeResult (ok failed)
program_runs-Whole_example =
    program_runs-Whole env openssl openssl none 3 endpoint (ok failed) made failed_run
      failed_run-IsOrderlyRun

program_comes_to_rest_example :
    (v x : Running) × (pass program failed ≡ ok v)
    × (shut v ≡ ok x)
    × (x.pending ≡ [])
    × ((port : ℕ) (remote : IpAddress) → look (inbound_at port remote) x.state ≡ none)
    × ((node name : String)
        → look (outbound_at node name) x.state ≡ (
            if emptied program Fine (outbound_at node name) failed.pending
            then none
            else look (outbound_at node name) failed.state))
program_comes_to_rest_example =
    program_comes_to_rest env openssl openssl none 3 endpoint failed made failed_run
      failed_run-IsOrderlyRun

abbrev asking : Session
asking = record (waiting) { posted = listener_close_session peer ∷ [] }

connected_listener :
    find 443 connected.state.listeners
    ≡ some (some (record (bound) { sessions = (peer, some waiting) ∷ [] }))
unfolding find
connected_listener = refl

failed_listener_strands_example :
    (pass program (post program 443 (post program 443 connected)) ≡ throw dangling_access)
    × (pass program (settle program here_at asking (post program 443 connected))
        ≡ throw dangling_access)
failed_listener_strands_example =
    failed_listener_strands connected 443 (record (bound) { sessions = (peer, some waiting) ∷ [] })
      here_at asking (listener_close_session peer) [] connected_listener refl refl refl refl
