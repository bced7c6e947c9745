-- ===== src/Program/Connecting.antt =====
-- endpoint.hpp and node.cpp: what a new node changes of the program.
use wshttp.Prelude.{
  ℕ, ◌≡◌, refl, sym, subst, ◌∙◌, inl, inr, true, String, Option, none, some, List, [], ◌∷◌, arith,
  Bool-cases, Option-cases, eq_iff,
}
use wshttp.Prelude.Outcome.{ok}
use wshttp.Maps.{find, assign, nat_key, string_key}
use wshttp.Maps.Laws.{find-assign_new, find_same, try_emplace_new, try_emplace_taken}
use wshttp.Address.Ip.{IpAddress}
use wshttp.Uri.{Uri, host, to_bool, empty}
use wshttp.Session.{Session}
use wshttp.Session.Setup.{Net}
use wshttp.Session.Outbound.Life.{Idle}
use wshttp.Node.{Node, Socket, make_node}
use wshttp.Node.Sessions.{IsPrintable, Started, make_node-Started}
use wshttp.Endpoint.{Endpoint, connect_uri}
use wshttp.Owned.{Job, closes, does, become, IsQuiet}
use wshttp.Owned.Keeping.{Entry, Change, Owed, become-Good}
use wshttp.Program.{Place, inbound_at, outbound_at, look}
use wshttp.Program.Places.{program}
use wshttp.Program.Steps.{Running, connects_to}
use wshttp.Program.Growing.{become-Whole}
use wshttp.Program.Keeping.{Fine, Whole}

-- Where there is no node, no job waits for one.
free-IsQuiet :
    (node name : String) (jobs : List (Job Place ℕ)) (e : Endpoint)
    → find node e.nodes ≡ none
    → Owed program Fine jobs e
    → IsQuiet program (outbound_at node name) jobs
unfolding look
free-IsQuiet node name [] e free owed = tt
free-IsQuiet node name (closes (inbound_at port a) alive ∷ jobs) e free (_, _, _, rest) =
    (refl, free-IsQuiet node name jobs e free rest)
free-IsQuiet node name (closes (outbound_at n h) alive ∷ jobs) e free (_, (t, found), _, rest) = (
  elim (Bool-cases (string_key.same node n)) [
    | inl hit ↦ absurd (ground (arith, find_same node n e.nodes hit, free, found))
    | inr miss ↦ rw miss refl
  ],
  free-IsQuiet node name jobs e free rest,
)
free-IsQuiet node name (does d alive ∷ jobs) e free (_, _, _, rest) =
    (refl, free-IsQuiet node name jobs e free rest)

abbrev joined : String → Node → Endpoint → Endpoint
joined name n e = record e { nodes = assign name (some n) ((name, none) ∷ e.nodes) }

connect_new :
    (k : Socket) (net : Net) (u : Uri) (opts : Option IpAddress) (n : Node) (e : Endpoint)
    → find (host u) e.nodes ≡ none
    → make_node k net u opts ≡ ok n
    → connect_uri k net u opts e ≡ (joined (host u) n e, ok true)
unfolding connect_uri to_bool empty
connect_new k net u opts n e free did =
    rw
      (
        connect_uri,
        try_emplace_new (host u) none e.nodes free,
        did,
        try_emplace_new (host u) none e.nodes free,
      )
      refl

-- The session of the new node, at its place.
pub Started-Entry :
    (node name : String) (n : Node) (s : Session)
    → Started n s
    → string_key.same (host n.uri) name ≡ true
    → Entry program Fine (outbound_at node name) (some s)
Started-Entry node name n s started same = (
  rw (started.idle.same_host, string_key.same_refl node) same,
  (subst (λ x. Idle x s) ((eq_iff (host n.uri) name).0 same) started.idle, started.quiet),
)

joined-Change :
    (name : String) (n : Node) (s : Session) (w : Running) (p : Place)
    → find name w.state.nodes ≡ none
    → Started n s
    → Owed program Fine w.pending w.state
    → Change program Fine w.pending w.state (joined name n w.state) p
unfolding look
joined-Change name n s w (inbound_at q a) free started owed = inl refl
joined-Change name n s w (outbound_at m h) free started owed =
    let changed = find-assign_new name m none (some n) w.state.nodes in
    elim (Bool-cases (string_key.same name m)) [
      | inr other ↦ inl (rw (changed, other) refl)
      | inl hit ↦
          let gone : find m w.state.nodes ≡ none =
            sym (find_same name m w.state.nodes hit) ∙ free in
          elim (Bool-cases (string_key.same (host n.uri) h)) [
            | inr apart ↦ inl (rw (changed, hit, gone) (started.alone h apart))
            | inl same ↦ inr (
              free-IsQuiet m h w.pending w.state gone owed,
              λ v stands.
                  let here : find h n.sessions ≡ some (some s) =
                    sym (find_same (host n.uri) h n.sessions same) ∙ started.stands in
                  let v_is : some s ≡ v = ground (arith, changed, hit, here, stands) in
                  subst (Entry program Fine (outbound_at m h)) v_is
                    (Started-Entry m h n s started same),
            )
          ]
    ]

connects_new :
    (k : Socket) (net : Net) (u : Uri) (opts : Option IpAddress) (n : Node) (w : Running)
    → find (host u) w.state.nodes ≡ none
    → IsPrintable opts
    → make_node k net u opts ≡ ok n
    → Whole w
    → Whole (connects_to k net u opts w)
unfolding connects_to become
connects_new k net u opts n w free printable did whole =
    let (s, started, _, _) = make_node-Started k net u opts n printable did in
    rw (connects_to, connect_new k net u opts n w.state free did)
      (record {
        good =
            become-Good program Fine (joined (host u) n w.state) w
              (λ p. joined-Change (host u) n s w p free started whole.good.owed) (λ d able. able)
              whole.good;
        sane = whole.sane;
      })

connect_taken :
    (k : Socket) (net : Net) (u : Uri) (opts : Option IpAddress) (old : Option Node) (e : Endpoint)
    → find (host u) e.nodes ≡ some old
    → (connect_uri k net u opts e).0 ≡ e
unfolding connect_uri to_bool empty
connect_taken k net u opts old e found =
    rw (connect_uri, try_emplace_taken (host u) none old e.nodes found) refl

pub connects_to-Whole :
    (k : Socket) (net : Net) (u : Uri) (opts : Option IpAddress) (w : Running)
    → IsPrintable opts
    → (find (host u) w.state.nodes ≡ none → (n : Node) × (make_node k net u opts ≡ ok n))
    → Whole w
    → Whole (connects_to k net u opts w)
unfolding connects_to
connects_to-Whole k net u opts w printable makes whole =
    elim (Option-cases (find (host u) w.state.nodes)) [
      | inl free ↦
          let (n, did) = makes free in connects_new k net u opts n w free printable did whole
      | inr (old, found) ↦
          rw (connects_to, connect_taken k net u opts old w.state found) (become-Whole w whole)
    ]
