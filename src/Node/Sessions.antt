-- ===== src/Node/Sessions.antt =====
-- node.cpp: the one session of a new node.
use wshttp.Prelude.{
  subst, ℕ, ◌≡◌, refl, sym, ap, ◌∙◌, String, false, Option, none, some, List, [], ◌∷◌, inl, inr,
  arith,
}
use wshttp.Prelude.Outcome.{Result, ◌>>=◌, ok, throw, Result-cases, Exception}
use wshttp.Maps.{find, assign, string_key}
use wshttp.Maps.Laws.{find-assign_new, try_emplace_new, find_of_empty}
use wshttp.Address.Ip.{IpAddress, of_port, copy_internals}
use wshttp.Address.Ip.Coherent.{IsCoherent}
use wshttp.Uri.{Uri, host}
use wshttp.Session.{Session, new_session}
use wshttp.Session.Outbound.Life.{Idle}
use wshttp.Session.Setup.{Net, new_ssl_outbound, init_internals_outbound}
use wshttp.Node.{
  Node, Socket, new_node, init_internals, handle_nd_opts, make_outbound, create_outbound_session,
  make_node, finished,
}

-- What the constructor of a node leaves where it returns: the session of the node's host.
pub record Started (n : Node) (s : Session) : Type 0 where
  pub stands : find (host n.uri) n.sessions ≡ some (some s)
  pub alone :
      (name : String) → string_key.same (host n.uri) name ≡ false → find name n.sessions ≡ none
  pub same_fd : s.fd ≡ n.fd
  pub quiet : s.posted ≡ []
  pub idle : Idle (host n.uri) s

init_internals_outbound-fields :
    (net : Net) (s t : Session)
    → init_internals_outbound net s ≡ ok t
    → (t.fd ≡ s.fd)
      × (t.ends ≡ s.ends)
      × (t.host ≡ s.host)
      × (t.dir ≡ s.dir)
      × (t.streams ≡ s.streams)
      × (t.posted ≡ s.posted)
unfolding init_internals_outbound new_ssl_outbound
init_internals_outbound-fields net s t e = ground arith

-- A local address of the node, where it has one, can be printed.
abbrev pub IsPrintable : Option IpAddress → Type 0
IsPrintable none = Unit
IsPrintable (some local) = IsCoherent local

chosen-IsCoherent :
    (local : Option IpAddress)
    → IsPrintable local
    → IsCoherent (elim local [ none ↦ of_port 0 | some a ↦ a ])
unfolding of_port
chosen-IsCoherent none printable = refl
chosen-IsCoherent (some local) printable = printable

of_port-IsCoherent : IsCoherent (of_port 0)
unfolding of_port
of_port-IsCoherent = refl

make_outbound-Idle :
    (net : Net) (fd : Option ℕ) (local : Option IpAddress) (name : String) (s : Session)
    → IsPrintable local
    → make_outbound net fd local name ≡ ok s
    → (s.fd ≡ fd) × (s.posted ≡ []) × Idle name s
unfolding make_outbound new_session
make_outbound-Idle net fd local name s printable did =
    let (same_fd, same_ends, same_host, same_dir, same_streams, same_posted) =
      init_internals_outbound-fields net _ s did in
    (
      same_fd,
      same_posted,
      record {
        is_outbound = same_dir;
        same_host = same_host;
        printable = rw same_ends (chosen-IsCoherent local printable, of_port-IsCoherent);
        no_streams = same_streams;
        closes_itself = rw same_posted tt;
      },
    )

-- The table after the session is made, or not.
abbrev with_sessions : Node → List (String × Option Session) → Node
with_sessions n sessions = record n { sessions = sessions }

create_throws :
    (net : Net) (n : Node) (e : Exception)
    → find (host n.uri) n.sessions ≡ none
    → make_outbound net n.fd n.local (host n.uri) ≡ throw e
    → create_outbound_session net n ≡ (with_sessions n ((host n.uri, none) ∷ n.sessions), throw e)
unfolding create_outbound_session
create_throws net n e free thrown =
    rw
      (
        create_outbound_session,
        try_emplace_new (host n.uri) none n.sessions free,
        thrown,
        try_emplace_new (host n.uri) none n.sessions free,
      )
      refl

create_makes :
    (net : Net) (n : Node) (s : Session)
    → find (host n.uri) n.sessions ≡ none
    → make_outbound net n.fd n.local (host n.uri) ≡ ok s
    → create_outbound_session net n
      ≡ (with_sessions n (assign (host n.uri) (some s) ((host n.uri, none) ∷ n.sessions)), ok tt)
unfolding create_outbound_session
create_makes net n s free made =
    rw
      (
        create_outbound_session,
        try_emplace_new (host n.uri) none n.sessions free,
        made,
        try_emplace_new (host n.uri) none n.sessions free,
      )
      refl

create-Started :
    (net : Net) (n m : Node)
    → n.sessions ≡ []
    → IsPrintable n.local
    → finished (create_outbound_session net n) ≡ ok m
    → (s : Session) × Started m s × ((m.fd ≡ n.fd) × (m.uri ≡ n.uri))
create-Started net n m empty printable did =
    let free = find_of_empty (host n.uri) n.sessions empty in
    elim (Result-cases (make_outbound net n.fd n.local (host n.uri))) [
      | inl (e, thrown) ↦
          absurd (ground (arith, sym (ap finished (create_throws net n e free thrown)) ∙ did))
      | inr (s, made) ↦
          let same : with_sessions n _ ≡ m =
            ground (arith, sym (ap finished (create_makes net n s free made)) ∙ did) in
          let (same_fd, quiet, idle) =
            make_outbound-Idle net n.fd n.local (host n.uri) s printable made in
          let (started, leaves) : Started m s × ((m.fd ≡ n.fd) × (m.uri ≡ n.uri)) =
            subst (λ x. Started x s × ((x.fd ≡ n.fd) × (x.uri ≡ n.uri))) same
              (
                record {
                  stands =
                      find-assign_new (host n.uri) (host n.uri) none (some s) n.sessions
                      ∙ rw (string_key.same_refl (host n.uri)) refl;
                  alone = λ name other.
                      find-assign_new (host n.uri) name none (some s) n.sessions
                      ∙ rw other (find_of_empty name n.sessions empty);
                  same_fd = same_fd;
                  quiet = quiet;
                  idle = idle;
                },
                (refl, refl),
              ) in
          (s, started, leaves)
    ]

abbrev InternalsLeave : Node → Result Node → Type 0
InternalsLeave n (throw e) = Unit
InternalsLeave n (ok m) =
    (m.sessions ≡ n.sessions)
    × (m.local ≡ n.local)
    × (m.uri ≡ n.uri)
    × (n.local ≡ none → m.fd ≡ n.fd)

init_internals-InternalsLeave : (k : Socket) (n : Node) → InternalsLeave n (init_internals k n)
unfolding init_internals
init_internals-InternalsLeave k n = ground arith

-- A node as its constructor has it before the session is made.
abbrev configured : Uri → Option IpAddress → Node
configured u none = new_node u
configured u (some local) = handle_nd_opts local (new_node u)

configured_lem :
    (u : Uri) (opts : Option IpAddress)
    → IsPrintable opts
    → ((configured u opts).sessions ≡ [])
      × IsPrintable (configured u opts).local
      × ((configured u opts).uri ≡ u)
      × ((configured u opts).fd ≡ none)
      × (opts ≡ none → (configured u opts).local ≡ none)
unfolding new_node handle_nd_opts copy_internals
configured_lem u none printable = (refl, tt, refl, refl, λ e. e)
configured_lem u (some local) printable = (refl, printable, refl, refl, λ e. cc)

make_node-configured :
    (k : Socket) (net : Net) (u : Uri) (opts : Option IpAddress)
    → make_node k net u opts
      ≡ (init_internals k (configured u opts) >>= λ n. finished (create_outbound_session net n))
unfolding make_node
make_node-configured k net u none = refl
make_node-configured k net u (some local) = refl

-- The constructor of a node that returns has made the session to the node's host, on the node's
-- descriptor, which is none where the node has no local address.
pub make_node-Started :
    (k : Socket) (net : Net) (u : Uri) (opts : Option IpAddress) (m : Node)
    → IsPrintable opts
    → make_node k net u opts ≡ ok m
    → (s : Session) × Started m s × (m.uri ≡ u) × (opts ≡ none → m.fd ≡ none)
make_node-Started k net u opts m printable did =
    let (empty, kept, same, unset, unbound) = configured_lem u opts printable in
    let did' = sym (make_node-configured k net u opts) ∙ did in
    elim (Result-cases (init_internals k (configured u opts))) [
      | inl (e, thrown) ↦ absurd (ground (arith, thrown, did'))
      | inr (n, set) ↦
          let (sessions, local, uri, fd) =
            subst (InternalsLeave (configured u opts)) set
              (init_internals-InternalsLeave k (configured u opts)) in
          let made : finished (create_outbound_session net n) ≡ ok m =
            subst (λ r. (r >>= λ x. finished (create_outbound_session net x)) ≡ ok m) set did' in
          let (s, started, (same_fd, same_uri)) =
            create-Started net n m (sessions ∙ empty) (rw local kept) made in
          (s, started, same_uri ∙ uri ∙ same, λ e. same_fd ∙ fd (unbound e) ∙ unset)
    ]
