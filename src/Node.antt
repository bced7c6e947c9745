-- ===== src/Node.antt =====
-- include/wshttp/node.hpp and src/node.cpp: a node for a host, with the outbound sessions to it.
pub mod Sessions
pub mod Connecting
pub mod Answering
use wshttp.Prelude.{ℕ, String, Bool, Option, none, some, List, [], if◌then◌else◌}
use wshttp.Prelude.Outcome.{Result, ok, throw, runtime_error, ◌>>=◌, ◌>>◌, require}
use wshttp.Maps.{try_emplace, assign, erase, string_key}
use wshttp.Encoding.{two, host_to_big}
use wshttp.Address.Ip.{
  IpAddress, Sockaddr, inet, inet6, of_port, copy_internals, as_in_addr, as_in6_addr,
}
use wshttp.Uri.{Uri, host}
use wshttp.Stream.{outbound}
use wshttp.Session.{Session, new_session}
use wshttp.Session.Setup.{Net, init_internals_outbound}

pub record Node : Type 0 where
  pub local : Option IpAddress
  pub fd : Option ℕ
  pub bound : Option Sockaddr
  pub uri : Uri
  pub sessions : List (String × Option Session)

-- What the system answers for the node's socket: its descriptor, and whether it could be made
-- non-blocking, and bound.
pub record Socket : Type 0 where
  pub big_endian : Bool
  pub opened : Option ℕ
  pub non_blocking : Bool
  pub bind_done : Bool

unfoldable pub new_node : Uri → Node
new_node u = record { local = none; fd = none; bound = none; uri = u; sessions = [] }

unfoldable pub handle_nd_opts : IpAddress → Node → Node
handle_nd_opts local n = record n { local = some (copy_internals local) }

-- The address that is bound, in network order; `is_ipv4()` is the flag.
unfoldable pub bind_name : Bool → IpAddress → Result Sockaddr
bind_name big_endian a =
    let sin_port = host_to_big big_endian two a.port in
    if a.is_v4
    then (as_in_addr big_endian a >>= λ s_addr. ok (inet s_addr sin_port))
    else (as_in6_addr big_endian a >>= λ s6_addr. ok (inet6 s6_addr sin_port))

unfoldable pub init_internals : Socket → Node → Result Node
unfolding bind_name
init_internals k n = elim n.local [
  | none ↦ ok n
  | some local ↦ require k.non_blocking runtime_error >> (elim k.opened [
    | none ↦ throw runtime_error
    | some fd ↦ bind_name k.big_endian local >>= λ name.
        require k.bind_done runtime_error >> ok (record n { fd = some fd; bound = some name })
  ])
]

-- The constructor of `outbound_session`.
unfoldable pub make_outbound : Net → (fd : Option ℕ) → Option IpAddress → String → Result Session
make_outbound net fd local name =
    let chosen : IpAddress = elim local [ none ↦ of_port 0 | some a ↦ a ] in
    init_internals_outbound net
      (new_session outbound fd (record { local = chosen; remote = of_port 0 }) name)

unfoldable pub create_outbound_session : Net → Node → Node × Result (Unit {0})
unfolding make_outbound host
create_outbound_session net n =
    let (emplaced, made) = try_emplace (host n.uri) none n.sessions in
    if made
    then elim (make_outbound net n.fd n.local (host n.uri)) [
      | ok s ↦ (record n { sessions = assign (host n.uri) (some s) emplaced }, ok tt)
      | throw e ↦ (record n { sessions = emplaced }, throw e)
    ]
    else (record n { sessions = (erase (host n.uri) emplaced).0 }, ok tt)

abbrev pub finished : Node × Result (Unit {0}) → Result Node
finished (n, ok _) = ok n
finished (n, throw e) = throw e

-- The constructors, without and with a local address.
unfoldable pub make_node : Socket → Net → Uri → Option IpAddress → Result Node
unfolding handle_nd_opts init_internals create_outbound_session
make_node k net u opts =
    let configured : Node = elim opts [
      | none ↦ new_node u
      | some local ↦ handle_nd_opts local (new_node u)
    ] in
    init_internals k configured >>= λ n. finished (create_outbound_session net n)

unfoldable pub close_session : String → Node → Node
close_session name n = record n { sessions = (erase name n.sessions).0 }
