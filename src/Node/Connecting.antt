-- ===== src/Node/Connecting.antt =====
-- node.cpp and session.cpp: how the session of a new node connects, and how it leaves the node.
use wshttp.Prelude.{
  ◌≡◌, refl, sym, ◌∙◌, String, true, false, Option, none, some, List, [], ◌∷◌, if◌then◌else◌, arith,
}
use wshttp.Prelude.Outcome.{ok, throw, runtime_error}
use wshttp.Maps.{find, string_key}
use wshttp.Maps.Laws.{find-erase}
use wshttp.Address.Ip.{IpAddress}
use wshttp.Address.Ip.Coherent.{path_to_string-AreCoherent}
use wshttp.Uri.{Uri, host}
use wshttp.Session.{Session, Posted, listener_close_session, node_close_session}
use wshttp.Session.Hooks.{close_session}
use wshttp.Session.Outbound.Life.{Idle}
use wshttp.Session.Setup.{Net, event_cb, initialize_outbound, config_send_initial}
use wshttp.Session.Transfer.{Driver}
use wshttp.Node.{Node, Socket, make_node}
use wshttp.Node
use wshttp.Node.Sessions.{IsPrintable, make_node-Started}

-- A session without a descriptor cannot be configured where the option cannot be set on none.
no_fd_fails :
    (net : Net) (d : Driver) (name : String) (s : Session)
    → net.nodelay_set none ≡ false
    → s.fd ≡ none
    → Idle name s
    → event_cb net d s true [] ≡ throw runtime_error
unfolding event_cb config_send_initial initialize_outbound
no_fd_fails net d name s refused unset idle =
    let (msg, shown) =
      (path_to_string-AreCoherent net.big_endian net.printer s.ends).0 idle.printable in
    rw (event_cb, shown, config_send_initial, idle.is_outbound, initialize_outbound, unset, refused)
      refl

-- A node without a local address, where its constructor returns, has a session to its host that
-- cannot be used: the event of its connection throws, since the system sets no option on the
-- descriptor -1, which is all that the session has.
pub unbound_node_fails :
    (k : Socket) (made at_event : Net) (d : Driver) (u : Uri) (n : Node)
    → at_event.nodelay_set none ≡ false
    → make_node k made u none ≡ ok n
    → (s : Session) × (find (host u) n.sessions ≡ some (some s))
      × (event_cb at_event d s true [] ≡ throw runtime_error)
unbound_node_fails k made at_event d u n refused did =
    let (s, started, same, unset) = make_node-Started k made u none n tt did in
    (
      s,
      rw (sym same) started.stands,
      no_fd_fails at_event d (host n.uri) s refused (started.same_fd ∙ unset refl) started.idle,
    )

-- The jobs that a session posts, run in order by its node.
abbrev pub run_posted : List Posted → Node → Node
run_posted [] n = n
run_posted (node_close_session name ∷ jobs) n = run_posted jobs (Node.close_session name n)
run_posted (listener_close_session _ ∷ jobs) n = run_posted jobs n

close_session_posts :
    (name : String) (s : Session)
    → Idle name s
    → s.posted ≡ []
    → (close_session s).posted ≡ node_close_session name ∷ []
unfolding close_session
close_session_posts name s idle quiet = ground (arith, idle.is_outbound, idle.same_host, quiet)

-- The session of a new node whose local address, where it has one, can be printed asks to be
-- closed when its connection fails; and once the loop has run the job that it posted, the node has
-- no session to its host any more, and the same sessions to other hosts.
failed_connection_leaves :
    (k : Socket) (made at_event : Net) (d : Driver) (u : Uri) (opts : Option IpAddress) (n : Node)
    (name : String)
    → IsPrintable opts
    → make_node k made u opts ≡ ok n
    → (s : Session) × (find (host u) n.sessions ≡ some (some s))
      × ((s' : Session) × (event_cb at_event d s false [] ≡ ok s')
          × (find name (run_posted s'.posted n).sessions
              ≡ (if string_key.same (host u) name then none else find name n.sessions)))
unfolding event_cb Node.close_session
failed_connection_leaves k made at_event d u opts n name printable did =
    let (s, started, same, unset) = make_node-Started k made u opts n printable did in
    let (msg, shown) =
      (path_to_string-AreCoherent at_event.big_endian at_event.printer s.ends).0
        started.idle.printable in
    (
      s,
      rw (sym same) started.stands,
      (
        close_session s,
        rw (event_cb, shown) refl,
        rw (close_session_posts (host n.uri) s started.idle started.quiet, sym same)
            (find-erase (host n.uri) name n.sessions),
      ),
    )
