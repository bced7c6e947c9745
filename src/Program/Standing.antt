-- ===== src/Program/Standing.antt =====
-- endpoint.hpp, endpoint.cpp, listener.cpp and node.cpp: what each operation of the program keeps of
-- its sessions, whatever jobs wait.
use wshttp.Prelude.{
  ℕ, ◌≡◌, ◌⊎◌, refl, sym, subst, ◌∙◌, inl, inr, String, Option, none, some, [], ◌∷◌, arith,
  Bool-cases, Option-cases, nat_eqb,
}
use wshttp.Prelude.Outcome.{Result, ok, throw, null_access}
use wshttp.Maps.{find, nat_key, string_key}
use wshttp.Maps.Laws.{find_same, find_of_empty, find-erase}
use wshttp.Address.Ip.{IpAddress}
use wshttp.Address.Ip.Keys.{ip_key}
use wshttp.Uri.{Uri, host}
use wshttp.Session.{Session}
use wshttp.Session.Setup.{Net}
use wshttp.Listener.{Listener, Binding, init_internals, new_listener, close_listener}
use wshttp.Node.{Node, Socket, make_node}
use wshttp.Node.Sessions.{IsPrintable, make_node-Started}
use wshttp.Server.Keeping
use wshttp.Endpoint.{Endpoint, Listeners, listen, connect_uri, close_each, shutdown_endpoint}
use wshttp.Endpoint
use wshttp.Endpoint.Tables.{made_entry, listen_lem, connect_uri_lem, AreLive, all_closed}
use wshttp.Owned.Keeping.{Entry, Entries}
use wshttp.Program.{Place, inbound_at, outbound_at, look, in_entry, remove, perform}
use wshttp.Program.Places.{program}
use wshttp.Program.Tables.{find-change_entry}
use wshttp.Program.Keeping.{Fine}
use wshttp.Program.Growing.{init_internals-sessions}
use wshttp.Program.Accepting.{created, accepted, outer-Entry}
use wshttp.Program.Connecting.{Started-Entry}
use wshttp.Program.Shutting.{emptied_endpoint, shut_looks}

abbrev pub Stand : Endpoint → Type 0
Stand e = Entries program Fine e

listen_nodes : (b : Binding) (port : ℕ) (e : Endpoint) → (listen b port e).0.nodes ≡ e.nodes
unfolding listen
listen_nodes b port e = ground arith

-- A listener that is made has no session; one that is not made is a null pointer.
fresh_looks :
    (b : Binding) (port : ℕ) (a : IpAddress) (r : Result Listener)
    → init_internals b (new_listener port) ≡ r
    → in_entry (λ (l : Listener). find a l.sessions) (made_entry none r) ≡ none
fresh_looks b port a (ok l) did = find_of_empty a l.sessions (init_internals-sessions b port l did)
fresh_looks b port a (throw x) did = refl

listen_looks :
    (b : Binding) (port : ℕ) (e : Endpoint) (p : Place) → look p (listen b port e).0 ≡ look p e
unfolding look
listen_looks b port e (outbound_at n h) = rw (listen_nodes b port e) refl
listen_looks b port e (inbound_at q a) = elim (Bool-cases (nat_eqb port q)) [
  | inr other ↦ rw ((listen_lem b port q e).0, other) refl
  | inl hit ↦ elim (Option-cases (find port e.listeners)) [
    | inr (entry, there) ↦
        rw ((listen_lem b port q e).0, hit, there, sym (find_same port q e.listeners hit) ∙ there)
          refl
    | inl free ↦
        rw ((listen_lem b port q e).0, hit, free, sym (find_same port q e.listeners hit) ∙ free)
          (fresh_looks b port a _ refl)
  ]
]

pub listen-Stand : (b : Binding) (port : ℕ) (e : Endpoint) → Stand e → Stand (listen b port e).0
listen-Stand b port e stand p v found = stand p v (sym (listen_looks b port e p) ∙ found)

connect_listeners :
    (k : Socket) (net : Net) (u : Uri) (opts : Option IpAddress) (e : Endpoint)
    → (connect_uri k net u opts e).0.listeners ≡ e.listeners
unfolding connect_uri
connect_listeners k net u opts e = ground arith

-- What stands in a new node, which may not be made.
joined-Entry :
    (k : Socket) (net : Net) (u : Uri) (opts : Option IpAddress) (m h : String) (r : Result Node)
    (v : Option Session)
    → IsPrintable opts
    → make_node k net u opts ≡ r
    → in_entry (λ (n : Node). find h n.sessions) (made_entry none r) ≡ some v
    → Entry program Fine (outbound_at m h) v
joined-Entry k net u opts m h (throw x) v printable did found = absurd (ground (arith, found))
joined-Entry k net u opts m h (ok n) v printable did found =
    let (s, started, _, _) = make_node-Started k net u opts n printable did in
    elim (Bool-cases (string_key.same (host n.uri) h)) [
      | inr apart ↦ absurd (ground (arith, started.alone h apart, found))
      | inl same ↦
          let v_is : some s ≡ v =
            ground
              (arith, sym (find_same (host n.uri) h n.sessions same) ∙ started.stands, found) in
          subst (Entry program Fine (outbound_at m h)) v_is (Started-Entry m h n s started same)
    ]

-- The same entry has the same sessions.
holds :
    {x y : Option (Option Node)} (h : String) (v : Option Session)
    → x ≡ y
    → in_entry (λ (n : Node). find h n.sessions) x ≡ some v
    → in_entry (λ (n : Node). find h n.sessions) y ≡ some v
holds h v same = subst (λ x. in_entry (λ (n : Node). find h n.sessions) x ≡ some v) same

pub connect-Stand :
    (k : Socket) (net : Net) (u : Uri) (opts : Option IpAddress) (e : Endpoint)
    → IsPrintable opts
    → Stand e
    → Stand (connect_uri k net u opts e).0
unfolding look
connect-Stand k net u opts e printable stand (inbound_at q a) v found = stand (inbound_at q a) v (
    subst (λ ls. in_entry (λ (l : Listener). find a l.sessions) (find q ls) ≡ some v)
      (connect_listeners k net u opts e) found)
connect-Stand k net u opts e printable stand (outbound_at m h) v found =
    let looked = (connect_uri_lem k net u opts m e).0 in
    elim (Bool-cases (string_key.same (host u) m)) [
      | inr other ↦ stand (outbound_at m h) v (holds h v (looked ∙ rw other refl) found)
      | inl hit ↦ elim (Option-cases (find (host u) e.nodes)) [
        | inr (entry, there) ↦
            let old : find m e.nodes ≡ some entry =
              sym (find_same (host u) m e.nodes hit) ∙ there in
            let now : find m (connect_uri k net u opts e).0.nodes ≡ some entry =
              looked ∙ rw (hit, there) refl in
            stand (outbound_at m h) v (holds h v (now ∙ sym old) found)
        | inl free ↦
            let now : find m (connect_uri k net u opts e).0.nodes
                ≡ made_entry none (make_node k net u opts) =
              looked ∙ rw (hit, free) refl in
            joined-Entry k net u opts m h (make_node k net u opts) v printable refl
              (holds h v now found)
      ]
    ]

pub accepted-Stand :
    (port : ℕ) (l : Listener) (net : Net) (remote : IpAddress) (e : Endpoint)
    → find port e.listeners ≡ some (some l)
    → Keeping.Entries (created net remote l).sessions
    → Stand e
    → Stand (accepted port net remote e)
unfolding look
accepted-Stand port l net remote e found inner stand (outbound_at n h) v there =
    stand (outbound_at n h) v there
accepted-Stand port l net remote e found inner stand (inbound_at q a) v there =
    let changed = find-change_entry port q (created net remote) e.listeners in
    elim (Bool-cases (nat_eqb port q)) [
      | inr other ↦ stand (inbound_at q a) v (rw (changed, other) at there)
      | inl hit ↦
          let here : find q e.listeners ≡ some (some l) =
            sym (find_same port q e.listeners hit) ∙ found in
          outer-Entry q a v (inner a v (rw (changed, hit, here) at there))
    ]

pub remove-Stand : (p : Place) (e : Endpoint) → Stand e → Stand (remove p e)
remove-Stand p e stand q v found =
    let looked = program.look-remove q p e in
    elim (Bool-cases (program.places.same p q)) [
      | inl hit ↦ absurd (ground (arith, looked, hit, found))
      | inr miss ↦ stand q v (sym (looked ∙ rw miss refl) ∙ found)
    ]

close-Stand : (q : ℕ) (e : Endpoint) → Stand e → Stand (Endpoint.close_listener q e)
unfolding look Endpoint.close_listener
close-Stand q e stand (outbound_at n h) v there = stand (outbound_at n h) v there
close-Stand q e stand (inbound_at j a) v there =
    let looked = find-erase q j e.listeners in
    elim (Bool-cases (nat_eqb q j)) [
      | inl hit ↦ absurd (ground (arith, looked, hit, there))
      | inr miss ↦ stand (inbound_at j a) v (rw (looked, miss) at there)
    ]

pub perform-Stand : (port : ℕ) (e e' : Endpoint) → perform port e ≡ ok e' → Stand e → Stand e'
unfolding perform Endpoint.close_listener
perform-Stand port e e' did stand = elim (Option-cases (find port e.listeners)) [
  | inl free ↦ absurd (ground (arith, free, did))
  | inr (none, null) ↦ absurd (ground (arith, null, did))
  | inr (some l, found) ↦
      let same : Endpoint.close_listener (close_listener l) e ≡ e' = ground (arith, found, did) in
      subst Stand same (close-Stand (close_listener l) e stand)
]

-- The loop over the listeners closes them all, or comes to a null pointer.
close_each_cases :
    (ls : Listeners)
    → (close_each ls ≡ ok (all_closed ls)) ⊎ ((close_each ls ≡ throw null_access) × (¬ AreLive ls))
unfolding close_each
close_each_cases [] = inl refl
close_each_cases ((p, none) ∷ ls) = inr (refl, λ live. live)
close_each_cases ((p, some l) ∷ ls) = elim (close_each_cases ls) [
  | inl closed ↦ inl (rw (close_each, closed) refl)
  | inr (thrown, dead) ↦ inr (rw (close_each, thrown) refl, λ live. dead live)
]

pub shutdown_cases :
    (e : Endpoint)
    → (shutdown_endpoint e ≡ ok (emptied_endpoint e))
      ⊎ ((shutdown_endpoint e ≡ throw null_access) × (¬ AreLive e.listeners))
unfolding shutdown_endpoint
shutdown_cases e = elim (close_each_cases e.listeners) [
  | inl closed ↦ inl (rw (shutdown_endpoint, closed) refl)
  | inr (thrown, dead) ↦ inr (rw (shutdown_endpoint, thrown) refl, dead)
]

pub emptied-Stand : (e : Endpoint) → Stand e → Stand (emptied_endpoint e)
unfolding look
emptied-Stand e stand (outbound_at n h) v found = stand (outbound_at n h) v found
emptied-Stand e stand (inbound_at port a) v found =
    absurd (ground (arith, shut_looks port a e, found))
