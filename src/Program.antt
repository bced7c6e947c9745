-- ===== src/Program.antt =====
-- The whole program: the endpoint with its listeners, its nodes and their sessions (endpoint.hpp,
-- endpoint.cpp, listener.cpp, node.cpp, session.cpp), while libevent calls them back and the loop
-- (loop.cpp) runs the jobs that they post.
pub mod Tables
pub mod Places
pub mod Steps
pub mod Keeping
pub mod Growing
pub mod Accepting
pub mod Connecting
pub mod Shutting
pub mod Running
pub mod Standing
pub mod Yielding
pub mod Safety
pub mod Resting
pub mod Failing
pub mod Leaving
use wshttp.Prelude.{
  ℕ, ◌≡◌, Bool, true, false, ◌&&◌, String, Option, none, some, List, nat_eqb, if◌then◌else◌,
}
use wshttp.Prelude.Outcome.{Result, ok, throw, dangling_access, ◌>>=◌}
use wshttp.Maps.{Key, find, assign, nat_key, string_key}
use wshttp.Address.Ip.{IpAddress, equal}
use wshttp.Address.Ip.Keys.{ip_key}
use wshttp.Session.{Session}
use wshttp.Listener.{Listener, close_session, close_listener}
use wshttp.Node.{Node}
use wshttp.Node
use wshttp.Endpoint.{Endpoint}
use wshttp.Endpoint

-- Where a session stands: under the address of its peer, in the listener of a port; or under a host,
-- in the node of a host.
pub data Place : Type 0 where
  inbound_at : (port : ℕ) (remote : IpAddress) → Place
  outbound_at : (node host : String) → Place

abbrev pub in_entry {κ ρ} :
    {R : Type ρ} → {V : Type κ} → (R → Option V) → Option (Option R) → Option V
in_entry f (some (some r)) = f r
in_entry f (some none) = none
in_entry f none = none

abbrev pub mapped {ρ} : {R : Type ρ} → (R → R) → Option (Option R) → Option (Option R)
mapped f (some (some r)) = some (some (f r))
mapped f (some none) = some none
mapped f none = none

abbrev pub is_live {ρ} : {R : Type ρ} → Option (Option R) → Bool
is_live (some (some _)) = true
is_live (some none) = false
is_live none = false

abbrev pub held {ρ} : {R : Type ρ} → Option (Option R) → Result R
held (some (some r)) = ok r
held (some none) = throw dangling_access
held none = throw dangling_access

-- An object that a table owns changes where it is.
unfoldable pub change_entry {κ ρ} :
    {K : Type κ} {R : Type ρ}
    → ⦃key : Key K⦄ → K
    → (R → R)
    → List (K × Option R)
    → List (K × Option R)
change_entry k f m = elim (find k m) [
  | none ↦ m
  | some v ↦ elim v [ none ↦ m | some r ↦ assign k (some (f r)) m ]
]

unfoldable pub look : Place → Endpoint → Option (Option Session)
look (inbound_at port a) e = in_entry (λ (l : Listener). find a l.sessions) (find port e.listeners)
look (outbound_at n h) e = in_entry (λ (x : Node). find h x.sessions) (find n e.nodes)

abbrev pub with_inbound : IpAddress → Session → Listener → Listener
with_inbound a u l = record l { sessions = assign a (some u) l.sessions }

abbrev pub with_outbound : String → Session → Node → Node
with_outbound h u n = record n { sessions = assign h (some u) n.sessions }

unfoldable pub put : Place → Session → Endpoint → Endpoint
unfolding change_entry
put (inbound_at port a) u e = record e {
  listeners = change_entry port (with_inbound a u) e.listeners;
}
put (outbound_at n h) u e = record e { nodes = change_entry n (with_outbound h u) e.nodes }

-- `_lst.close_session(_path.remote())` and `_n.close_session(_host)`.
unfoldable pub remove : Place → Endpoint → Endpoint
unfolding change_entry close_session Node.close_session
remove (inbound_at port a) e = record e {
  listeners = change_entry port (close_session a) e.listeners;
}
remove (outbound_at n h) e = record e { nodes = change_entry n (Node.close_session h) e.nodes }

-- The listener and the node of a session are those that own it.
abbrev pub own : Place → Session → Place
own (inbound_at port a) t = inbound_at port t.ends.remote
own (outbound_at n h) t = outbound_at n t.host

abbrev pub stands : ℕ → Endpoint → Bool
stands port e = is_live (find port e.listeners)

-- The job of the listener under the port: the endpoint is to close the listener on the port that
-- the listener then names.
unfoldable pub perform : ℕ → Endpoint → Result Endpoint
unfolding close_listener Endpoint.close_listener
perform port e =
    held (find port e.listeners) >>= λ l. ok (Endpoint.close_listener (close_listener l) e)

abbrev pub touches : ℕ → Place → Bool
touches port (inbound_at q a) = nat_eqb port q
touches port (outbound_at n h) = false
