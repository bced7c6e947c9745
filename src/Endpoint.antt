-- ===== src/Endpoint.antt =====
-- include/wshttp/endpoint.hpp and src/endpoint.cpp: the endpoint, with its tables of listeners, by
-- port, and of nodes, by host. Each operation runs on the loop's thread (Loop/Jobs.antt says how
-- it gets there).
pub mod Tables
pub mod Lifetime
pub mod Connecting
use wshttp.Prelude.{
  ℕ, ◌+◌, ◌%◌, ◌^◌, String, Bool, true, false, ◌&&◌, Option, none, some, List, [], ◌∷◌,
  if◌then◌else◌,
}
use wshttp.Prelude.Outcome.{Result, ok, throw, invalid_argument, null_access, ◌>>=◌, ◌>>◌, require}
use wshttp.Maps.{try_emplace, assign, erase, nat_key, string_key}
use wshttp.Address.Ip.{IpAddress}
use wshttp.Uri.{Uri, Ada, Parser, read, href_text, print_aggregates, parse_uri, host, to_bool}
use wshttp.Session.Setup.{Net}
use wshttp.Listener.{Listener, Binding, new_listener, init_internals, close_all}
use wshttp.Node.{Node, Socket, make_node}
use wshttp.Loop.Timers.{Tickers, Watchers, stop_tickers}
use wshttp.Loop.Thread.{LoopThread, stop_thread}
use wshttp.Context.{Answers, Creds, AppContext, SslCtx, init}

abbrev pub Listeners : Type 0
Listeners = List (ℕ × Option Listener)

abbrev pub Nodes : Type 0
Nodes = List (String × Option Node)

pub record Endpoint : Type 0 where
  pub client_id : ℕ
  pub ctx : Option AppContext
  pub listeners : Listeners
  pub nodes : Nodes
  pub close_immediately : Bool

-- `caller_id_t` has 16 bits.
abbrev pub caller_id_modulus : ℕ
caller_id_modulus = 2 ^ 16

-- `handle_ep_opt`; the pointer to the credentials may be null.
unfoldable pub handle_ep_opt : (i o : Answers) → Option Creds → Endpoint → Result Endpoint
handle_ep_opt i o c e = init i o c >>= λ ctx. ok (record e { ctx = some ctx })

-- The constructor, with the static `next_client_id` before and after it.
unfoldable pub make : (i o : Answers) → Option Creds → (next_client_id : ℕ) → Result Endpoint × ℕ
unfolding handle_ep_opt
make i o c next_client_id =
    let id = (next_client_id + 1) % caller_id_modulus in
    (
      handle_ep_opt i o c (record {
        client_id = id;
        ctx = none;
        listeners = [];
        nodes = [];
        close_immediately = false;
      }),
      id,
    )

-- `inbound_ctx` and `outbound_ctx`, through the pointer to the contexts.
unfoldable pub inbound_ctx : Endpoint → Result SslCtx
inbound_ctx e = elim e.ctx [ none ↦ throw null_access | some x ↦ ok x.inbound ]

unfoldable pub outbound_ctx : Endpoint → Result SslCtx
outbound_ctx e = elim e.ctx [ none ↦ throw null_access | some x ↦ ok x.outbound ]

-- `test_parse_method`: what it logs if the text can be read.
unfoldable pub test_parse_method :
    (ada : Ada)
    → Parser ada
    → String
    → Parser ada × Option (Option String × Option (List String × ℕ))
test_parse_method ada p url =
    let (p', success) = read ada p url in
    if success then (p', some (href_text ada p', print_aggregates ada p')) else (p', none)

-- `listen`: the table that is left is returned with the outcome.
unfoldable pub listen : Binding → ℕ → Endpoint → Endpoint × Result Bool
listen b port e =
    let (emplaced, made) = try_emplace port none e.listeners in
    if made
    then elim (init_internals b (new_listener port)) [
      | ok l ↦ (record e { listeners = assign port (some l) emplaced }, ok true)
      | throw x ↦ (record e { listeners = emplaced }, throw x)
    ]
    else (e, throw invalid_argument)

-- `connect`, from the test of the `uri` on; the key is the host.
unfoldable pub connect_uri :
    Socket → Net → Uri → Option IpAddress → Endpoint → Endpoint × Result Bool
unfolding to_bool
connect_uri k net u opts e =
    let (emplaced, made) = try_emplace (host u) none e.nodes in
    if to_bool u && made
    then elim (make_node k net u opts) [
      | ok n ↦ (record e { nodes = assign (host u) (some n) emplaced }, ok true)
      | throw x ↦ (record e { nodes = emplaced }, throw x)
    ]
    else (e, throw invalid_argument)

-- `connect`, with the global parser passed along.
unfoldable pub connect :
    (ada : Ada)
    → Socket
    → Net
    → Parser ada
    → String
    → Option IpAddress
    → Endpoint
    → Parser ada × (Endpoint × Result Bool)
unfolding connect_uri
connect ada k net p url opts e =
    let (p', parsed) = parse_uri ada p url in
    (p', elim parsed [ none ↦ (e, throw null_access) | some u ↦ connect_uri k net u opts e ])

unfoldable pub close_listener : ℕ → Endpoint → Endpoint
close_listener p e = record e { listeners = (erase p e.listeners).0 }

-- The loop of `shutdown_endpoint`.
unfoldable pub close_each : Listeners → Result Listeners
close_each [] = ok []
close_each ((p, none) ∷ rest) = throw null_access
close_each ((p, some l) ∷ rest) = do closed ← close_each rest; ok ((p, some (close_all l)) ∷ closed)

unfoldable pub shutdown_endpoint : Endpoint → Result Endpoint
unfolding close_each
shutdown_endpoint e = do closed ← close_each e.listeners; ok (record e { listeners = closed })

unfoldable pub set_shutdown_immediate : Bool → Endpoint → Endpoint
set_shutdown_immediate b e = record e { close_immediately = b }

-- The destructor. `sole` says that no one else holds the loop: then its thread is stopped. The
-- watchers of the endpoint's handlers are stopped in either case.
unfoldable pub destroy :
    (in_event_loop sole : Bool)
    → (expired : ℕ → Bool) → (deleted : Bool) → Tickers
    → Watchers
    → LoopThread
    → Endpoint
    → Result (Endpoint × (Watchers × LoopThread))
unfolding shutdown_endpoint
destroy in_event_loop sole expired deleted tickers ws t e = do
  e' ← if e.close_immediately then ok e else shutdown_endpoint e
  t' ← if sole then stop_thread in_event_loop e.close_immediately t else ok t
  ok (record e' { listeners = [] }, (stop_tickers expired deleted e.client_id tickers ws, t'))
