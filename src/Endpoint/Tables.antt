-- ===== src/Endpoint/Tables.antt =====
-- endpoint.hpp and endpoint.cpp: the tables of listeners and nodes.
use wshttp.Prelude.{
  ℕ, ◌≡◌, refl, ◌∙◌, String, Bool, true, Option, none, some, [], ◌∷◌, if◌then◌else◌, Option-cases,
  inl, inr, arith, nat_eqb,
}
use wshttp.Prelude.Outcome.{
  Result, ok, throw, Result-cases, Exception, invalid_argument, null_access,
}
use wshttp.Maps.{find, nat_key, string_key}
use wshttp.Maps.Laws.{
  find_taken, find_free, find-erase, find-cons, find-assign_new, try_emplace_new, try_emplace_taken,
}
use wshttp.Address.Ip.{IpAddress}
use wshttp.Uri.{Uri, host, to_bool, empty}
use wshttp.Session.Setup.{Net}
use wshttp.Listener.{Binding, new_listener, init_internals, close_all}
use wshttp.Node.{Socket, make_node}
use wshttp.Endpoint.{
  Endpoint, Listeners, listen, connect_uri, close_listener, close_each, shutdown_endpoint,
}

module _ {ℓ} {A : Type ℓ} where
  -- What making an entry leaves under its key: the entry that was there, or the new one, which is a
  -- null pointer where the constructor throws.
  abbrev pub made_entry : Option (Option A) → Result A → Option (Option A)
  made_entry (some old) made = some old
  made_entry none (ok a) = some (some a)
  made_entry none (throw _) = some none

  abbrev pub made_outcome : Option (Option A) → Result A → Result Bool
  made_outcome (some _) made = throw invalid_argument
  made_outcome none (ok _) = ok true
  made_outcome none (throw e) = throw e

-- `listen` on a port that has an entry throws and changes nothing. On another port it changes that
-- port's entry only: to the listener, or, where the constructor throws, to a null pointer.
pub listen_lem :
    (b : Binding) (port j : ℕ) (e : Endpoint)
    → (find j (listen b port e).0.listeners ≡ (
        if nat_eqb port j
        then made_entry (find port e.listeners) (init_internals b (new_listener port))
        else find j e.listeners))
      × ((listen b port e).1
          ≡ made_outcome (find port e.listeners) (init_internals b (new_listener port)))
unfolding listen
listen_lem b port j e = elim (Option-cases (find port e.listeners)) [
  | inl new ↦ elim (Result-cases (init_internals b (new_listener port))) [
    | inl (x, bad) ↦
        rw
          (
            try_emplace_new port none e.listeners new,
            new,
            bad,
            try_emplace_new port none e.listeners new,
          )
          (find-cons port j none e.listeners, refl)
    | inr (l, good) ↦
        rw
          (
            try_emplace_new port none e.listeners new,
            new,
            good,
            try_emplace_new port none e.listeners new,
          )
          (find-assign_new port j none (some l) e.listeners, refl)
  ]
  | inr (entry, old) ↦
      rw (try_emplace_taken port none entry e.listeners old, old)
        (find_taken port j entry e.listeners old, refl)
]

-- `connect` to a uri whose host has an entry throws and changes nothing. To another host it changes
-- that host's entry only: to the node, or, where the constructor throws, to a null pointer. The
-- uri's own test never stops it.
pub connect_uri_lem :
    (k : Socket) (net : Net) (u : Uri) (opts : Option IpAddress) (name : String) (e : Endpoint)
    → (find name (connect_uri k net u opts e).0.nodes ≡ (
        if string_key.same (host u) name
        then made_entry (find (host u) e.nodes) (make_node k net u opts)
        else find name e.nodes))
      × ((connect_uri k net u opts e).1
          ≡ made_outcome (find (host u) e.nodes) (make_node k net u opts))
unfolding connect_uri to_bool empty
connect_uri_lem k net u opts name e = elim (Option-cases (find (host u) e.nodes)) [
  | inl new ↦ elim (Result-cases (make_node k net u opts)) [
    | inl (x, bad) ↦
        rw
          (
            try_emplace_new (host u) none e.nodes new,
            new,
            bad,
            try_emplace_new (host u) none e.nodes new,
          )
          (find-cons (host u) name none e.nodes, refl)
    | inr (n, good) ↦
        rw
          (
            try_emplace_new (host u) none e.nodes new,
            new,
            good,
            try_emplace_new (host u) none e.nodes new,
          )
          (find-assign_new (host u) name none (some n) e.nodes, refl)
  ]
  | inr (entry, old) ↦
      rw (try_emplace_taken (host u) none entry e.nodes old, old)
        (find_taken (host u) name entry e.nodes old, refl)
]

-- Closing the listener that `listen` made on a free port gives back the table as it was.
pub close_listener-listen :
    (b : Binding) (port j : ℕ) (e : Endpoint)
    → find port e.listeners ≡ none
    → find j (close_listener port (listen b port e).0).listeners ≡ find j e.listeners
unfolding close_listener
close_listener-listen b port j e new =
    find-erase port j (listen b port e).0.listeners
    ∙ ground (arith, (listen_lem b port j e).0, find_free port j e.listeners new)

-- What `shutdown_endpoint` needs: no entry of the table is a null pointer.
abbrev pub AreLive : Listeners → Type 0
AreLive [] = Unit {0}
AreLive ((p, some l) ∷ rest) = AreLive rest
AreLive ((p, none) ∷ rest) = ⊥

-- The table with every session of every listener closed.
abbrev pub all_closed : Listeners → Listeners
all_closed [] = []
all_closed ((p, some l) ∷ rest) = (p, some (close_all l)) ∷ all_closed rest
all_closed ((p, none) ∷ rest) = (p, none) ∷ all_closed rest

close_each_live : (ls : Listeners) → AreLive ls → close_each ls ≡ ok (all_closed ls)
unfolding close_each
close_each_live [] live = refl
close_each_live ((p, some l) ∷ rest) live = rw (close_each_live rest live) refl
close_each_live ((p, none) ∷ rest) live = elim live [ ]

-- `shutdown_endpoint` closes every session of every listener, and keeps the listeners, where no entry
-- of the table is a null pointer.
pub shutdown_endpoint_lem :
    (e : Endpoint)
    → AreLive e.listeners
    → shutdown_endpoint e ≡ ok (record e { listeners = all_closed e.listeners })
unfolding shutdown_endpoint
shutdown_endpoint_lem e live = rw (close_each_live e.listeners live) refl

-- A null pointer under any port.
close_each_null :
    (ls : Listeners) (port : ℕ) → find port ls ≡ some none → close_each ls ≡ throw null_access
unfolding close_each find
close_each_null [] port e = cc
close_each_null ((p, none) ∷ rest) port e = refl
close_each_null ((p, some l) ∷ rest) port e =
    rw (close_each_null rest port (ground (arith, e))) refl

-- A `listen` whose listener cannot be made, on a free port, leaves an endpoint that cannot be shut
-- down: `shutdown_endpoint` calls through the null pointer that is left in the table.
pub shutdown_endpoint-listen :
    (b : Binding) (port : ℕ) (e : Endpoint) (x : Exception)
    → find port e.listeners ≡ none
    → init_internals b (new_listener port) ≡ throw x
    → shutdown_endpoint (listen b port e).0 ≡ throw null_access
unfolding shutdown_endpoint
shutdown_endpoint-listen b port e x new bad =
    rw
      (close_each_null (listen b port e).0.listeners port
        (ground (arith, (listen_lem b port port e).0, new, bad, nat_key.same_refl port)))
      refl
