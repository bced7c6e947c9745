-- ===== src/Endpoint/Connecting.antt =====
-- endpoint.hpp, node.cpp and session.cpp: what comes of a `connect` that succeeds.
use wshttp.Prelude.{
  Bool, if◌then◌else◌, ℕ, String, Bool-cases, Option-cases, inl, inr, List, ◌∷◌, ◌≡◌, refl, sym,
  ◌∙◌, true, false, Option, none, some, [], arith,
}
use wshttp.Prelude.Outcome.{Result, ok, throw, runtime_error, invalid_argument}
use wshttp.Maps.{find, assign, is_some, nat_key, string_key}
use wshttp.Maps.Laws.{find-assign, try_emplace_taken}
use wshttp.Address.Ip.{IpAddress}
use wshttp.Uri.{Uri, host, to_bool, empty}
use wshttp.Session.{Session}
use wshttp.Listener.{Binding}
use wshttp.Session.Setup.{Net, event_cb}
use wshttp.Session.Transfer.{Driver}
use wshttp.Node.{Node, Socket, make_node}
use wshttp.Node
use wshttp.Node.Connecting.{unbound_node_fails}
use wshttp.Endpoint.{Endpoint, listen, connect_uri, close_listener, shutdown_endpoint}
use wshttp.Endpoint.Tables.{made_entry, made_outcome, connect_uri_lem}

made :
    (old : Option (Option Node)) (r : Result Node)
    → made_outcome old r ≡ ok true
    → (n : Node) × (r ≡ ok n) × (made_entry old r ≡ some (some n))
made (some entry) r e = absurd (ground (arith, e))
made none (ok n) e = (n, refl, refl)
made none (throw x) e = absurd (ground (arith, e))

-- A `connect` that returned has added its node, which was made.
connected_node :
    (k : Socket) (net : Net) (u : Uri) (opts : Option IpAddress) (e : Endpoint)
    → (connect_uri k net u opts e).1 ≡ ok true
    → (n : Node) × (make_node k net u opts ≡ ok n)
      × (find (host u) (connect_uri k net u opts e).0.nodes ≡ some (some n))
connected_node k net u opts e returned =
    let (looked, outcome) = connect_uri_lem k net u opts (host u) e in
    let (n, did, entry) =
      made (find (host u) e.nodes) (make_node k net u opts) (sym outcome ∙ returned) in
    (n, did, looked ∙ rw (string_key.same_refl (host u)) entry)

has_made_entry : (old : Option (Option Node)) (r : Result Node) → is_some (made_entry old r) ≡ true
has_made_entry (some entry) r = refl
has_made_entry none (ok n) = refl
has_made_entry none (throw x) = refl

connect_again :
    (k : Socket) (net : Net) (u : Uri) (opts : Option IpAddress) (e : Endpoint)
    (entry : Option Node)
    → find (host u) e.nodes ≡ some entry
    → connect_uri k net u opts e ≡ (e, throw invalid_argument)
unfolding connect_uri to_bool empty
connect_again k net u opts e entry stands =
    rw (connect_uri, try_emplace_taken (host u) none entry e.nodes stands) refl

-- What may follow: the user listens on a port, connects to another host or the same, closes a
-- listener or shuts the endpoint down, and a job closes a session of a node.
pub data Operation : Type 0 where
  listens : Binding → ℕ → Operation
  connects : Socket → Net → Uri → Option IpAddress → Operation
  closes : ℕ → Operation
  shuts : Operation
  session_closes : (node name : String) → Operation

abbrev without_session : String → Option Node → Option Node
without_session name none = none
without_session name (some n) = some (Node.close_session name n)

unfoldable pub operate : Endpoint → Operation → Endpoint
operate e (listens b port) = (listen b port e).0
operate e (connects k net u opts) = (connect_uri k net u opts e).0
operate e (closes port) = close_listener port e
operate e shuts = elim (shutdown_endpoint e) [ ok e' ↦ e' | throw x ↦ e ]
operate e (session_closes node name) = elim (find node e.nodes) [
  | none ↦ e
  | some entry ↦ record e { nodes = assign node (without_session name entry) e.nodes }
]

unfoldable pub operate_all : Endpoint → List Operation → Endpoint
operate_all e [] = e
operate_all e (x ∷ more) = operate_all (operate e x) more

-- The table of nodes has an entry for the host.
abbrev HasNode : String → Endpoint → Type 0
HasNode name e = is_some (find name e.nodes) ≡ true

some_either :
    (b : Bool) (x : Option Node) (o : Option (Option Node))
    → is_some o ≡ true
    → is_some (if b then some x else o) ≡ true
some_either true x o h = refl
some_either false x o h = h

operate-HasNode :
    (name : String) (e : Endpoint) (x : Operation) → HasNode name e → HasNode name (operate e x)
unfolding operate listen close_listener shutdown_endpoint
operate-HasNode name e (listens b port) h = ground (arith, h)
operate-HasNode name e (connects k net u opts) h =
    rw ((connect_uri_lem k net u opts name e).0)
      (elim (Bool-cases (string_key.same (host u) name)) [
        | inr other ↦ rw other h
        | inl same ↦ rw same (has_made_entry (find (host u) e.nodes) (make_node k net u opts))
      ])
operate-HasNode name e (closes port) h = h
operate-HasNode name e shuts h = ground (arith, h)
operate-HasNode name e (session_closes node session) h = elim (Option-cases (find node e.nodes)) [
  | inl missing ↦ rw (operate, missing) h
  | inr (entry, there) ↦
      rw (operate, there, find-assign node name (without_session session entry) e.nodes)
        (some_either _ (without_session session entry) (find name e.nodes) h)
]

operate_all-HasNode :
    (name : String) (e : Endpoint) (more : List Operation)
    → HasNode name e
    → HasNode name (operate_all e more)
unfolding operate_all
operate_all-HasNode name e [] h = h
operate_all-HasNode name e (x ∷ more) h =
    operate_all-HasNode name (operate e x) more (operate-HasNode name e x h)

-- Where the system sets no option on the descriptor -1, and `connect` without a local address
-- returns true, the new node has a session to the host that cannot be used: the event of its
-- connection, with no protocol negotiated, throws. And from then on a `connect` to the same host, by
-- whatever uri and with whatever options, throws and changes nothing, whatever the user has asked of
-- the endpoint meanwhile and whichever sessions of its nodes have been closed.
pub unbound_connect_fails :
    (k again : Socket) (net at_event then_net : Net) (d : Driver) (u later : Uri)
    (opts : Option IpAddress) (e : Endpoint) (more : List Operation)
    → at_event.nodelay_set none ≡ false
    → host later ≡ host u
    → (connect_uri k net u none e).1 ≡ ok true
    → ((n : Node) × (find (host u) (connect_uri k net u none e).0.nodes ≡ some (some n))
        × ((s : Session) × (find (host u) n.sessions ≡ some (some s))
            × (event_cb at_event d s true [] ≡ throw runtime_error)))
      × (connect_uri again then_net later opts (operate_all (connect_uri k net u none e).0 more)
          ≡ (operate_all (connect_uri k net u none e).0 more, throw invalid_argument))
unbound_connect_fails k again net at_event then_net d u later opts e more refused alike returned =
    let (n, did, stands) = connected_node k net u none e returned in
    let made : Endpoint = (connect_uri k net u none e).0 in
    let kept : HasNode (host later) (operate_all made more) =
      operate_all-HasNode (host later) made more (rw (alike, stands) refl) in
    (
      (n, stands, unbound_node_fails k net at_event d u n refused did),
      elim (Option-cases (find (host later) (operate_all made more).nodes)) [
        | inl missing ↦ absurd (ground (arith, kept, missing))
        | inr (entry, there) ↦ connect_again again then_net later opts _ entry there
      ],
    )
