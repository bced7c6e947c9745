-- ===== src/Program/Places.antt =====
-- endpoint.hpp, listener.hpp and node.hpp: the laws of the program's tables, and the part that they
-- make.
use wshttp.Prelude.{
  ℕ, ◌≡◌, refl, ◌∙◌, Bool, true, false, ◌&&◌, none, some, nat_eqb, if◌then◌else◌, arith, Bool-cases,
  inl, inr,
}
use wshttp.Prelude.Outcome.{ok}
use wshttp.Maps.{Key, find, nat_key, string_key}
use wshttp.Maps.Laws.{find-erase}
use wshttp.Address.Ip.{equal}
use wshttp.Address.Ip.Keys.{ip_key}
use wshttp.Session.{Session}
use wshttp.Listener.{Listener, close_session, close_listener}
use wshttp.Node.{Node}
use wshttp.Node
use wshttp.Endpoint.{Endpoint}
use wshttp.Endpoint
use wshttp.Owned.{Store}
use wshttp.Program.{
  Place, inbound_at, outbound_at, change_entry, look, put, remove, own, stands, perform, touches,
  with_inbound, with_outbound,
}
use wshttp.Program.Tables.{find-change_entry, look_in-put, look_in-remove}

abbrev pub same_place : Place → Place → Bool
same_place (inbound_at p a) (inbound_at q b) = nat_eqb p q && equal a b
same_place (outbound_at n g) (outbound_at m h) = string_key.same n m && string_key.same g h
same_place (inbound_at p a) (outbound_at m h) = false
same_place (outbound_at n g) (inbound_at q b) = false

pub same_place_refl : (p : Place) → same_place p p ≡ true
same_place_refl (inbound_at p a) = rw (nat_key.same_refl p, ip_key.same_refl a) refl
same_place_refl (outbound_at n g) = rw (string_key.same_refl n, string_key.same_refl g) refl

pub same_place_left : (p q r : Place) → same_place p q ≡ true → same_place p r ≡ same_place q r
same_place_left (inbound_at p a) (inbound_at q b) (inbound_at r c) e =
    ground (arith, e, nat_key.same_left p q r, ip_key.same_left a b c)
same_place_left (outbound_at n g) (outbound_at m h) (outbound_at k i) e =
    ground (arith, e, string_key.same_left n m k, string_key.same_left g h i)
same_place_left (inbound_at p a) (inbound_at q b) (outbound_at k i) e = refl
same_place_left (outbound_at n g) (outbound_at m h) (inbound_at r c) e = refl
same_place_left (inbound_at p a) (outbound_at m h) r e = absurd (ground (arith, e))
same_place_left (outbound_at n g) (inbound_at q b) r e = absurd (ground (arith, e))

abbrev pub place_key : Key Place
place_key = record { same = same_place; same_refl = same_place_refl; same_left = same_place_left }

-- The listener under the port is there, and it is on that port.
abbrev pub Able : ℕ → Endpoint → Type 0
Able port e = (l : Listener) × (find port e.listeners ≡ some (some l)) × (l.local.port ≡ port)

pub look-put :
    (p q : Place) (t u : Session) (e : Endpoint)
    → look q e ≡ some (some t)
    → look p (put q u e) ≡ (if same_place q p then some (some u) else look p e)
unfolding look put
look-put (inbound_at p a) (inbound_at q b) t u e found =
    look_in-put (λ (l : Listener). l.sessions) (with_inbound b u) q p b a (some u) e.listeners
      (λ l. refl) (rw found refl)
look-put (outbound_at n g) (outbound_at m h) t u e found =
    look_in-put (λ (x : Node). x.sessions) (with_outbound h u) m n h g (some u) e.nodes (λ x. refl)
      (rw found refl)
look-put (inbound_at p a) (outbound_at m h) t u e found = refl
look-put (outbound_at n g) (inbound_at q b) t u e found = refl

pub look-remove :
    (p q : Place) (e : Endpoint) → look p (remove q e) ≡ (if same_place q p then none else look p e)
unfolding look remove close_session Node.close_session
look-remove (inbound_at p a) (inbound_at q b) e =
    look_in-remove (λ (l : Listener). l.sessions) (close_session b) q p b a e.listeners (λ l. refl)
look-remove (outbound_at n g) (outbound_at m h) e =
    look_in-remove (λ (x : Node). x.sessions) (Node.close_session h) m n h g e.nodes (λ x. refl)
look-remove (inbound_at p a) (outbound_at m h) e = refl
look-remove (outbound_at n g) (inbound_at q b) e = refl

pub Able-stands : (port : ℕ) (e : Endpoint) → Able port e → stands port e ≡ true
Able-stands port e (l, found, same) = rw found refl

-- What changes a listener but not its own address leaves every listener able.
pub Able-change_entry :
    (port q : ℕ) (f : Listener → Listener) (e : Endpoint)
    → ((l : Listener) → (f l).local ≡ l.local)
    → Able port e
    → Able port (record e { listeners = change_entry q f e.listeners })
Able-change_entry port q f e kept (l, found, same) = elim (Bool-cases (nat_eqb q port)) [
  | inl hit ↦ (f l, find-change_entry q port f e.listeners ∙ rw (hit, found) refl, rw (kept l) same)
  | inr miss ↦ (l, find-change_entry q port f e.listeners ∙ rw miss found, same)
]

pub Able-put :
    (port : ℕ) (q : Place) (u : Session) (e : Endpoint) → Able port e → Able port (put q u e)
unfolding put
Able-put port (inbound_at q b) u e able =
    Able-change_entry port q (with_inbound b u) e (λ l. refl) able
Able-put port (outbound_at m h) u e able = able

pub Able-remove : (port : ℕ) (q : Place) (e : Endpoint) → Able port e → Able port (remove q e)
unfolding remove close_session
Able-remove port (inbound_at q b) e able =
    Able-change_entry port q (close_session b) e (λ l. refl) able
Able-remove port (outbound_at m h) e able = able

-- Closing a listener takes its sessions away.
pub perform_looks :
    (port : ℕ) (p : Place) (e : Endpoint)
    → look p (Endpoint.close_listener port e) ≡ (if touches port p then none else look p e)
unfolding Endpoint.close_listener look
perform_looks port (inbound_at q a) e = elim (Bool-cases (nat_eqb port q)) [
  | inl hit ↦ rw (find-erase port q e.listeners, hit) refl
  | inr miss ↦ rw (find-erase port q e.listeners, miss) refl
]
perform_looks port (outbound_at n h) e = refl

pub Able-perform :
    (port : ℕ) (e : Endpoint)
    → Able port e
    → (e' : Endpoint) × (perform port e ≡ ok e')
      × ((p : Place) → look p e' ≡ (if touches port p then none else look p e))
      × ((d : ℕ) → nat_eqb port d ≡ false → Able d e → Able d e')
unfolding perform close_listener Endpoint.close_listener
Able-perform port e (l, found, same) = (
  Endpoint.close_listener port e,
  rw (perform, found, same) refl,
  λ p. perform_looks port p e,
  λ d apart (m, there, on). (m, find-erase port d e.listeners ∙ rw apart there, on),
)

-- The program as a part that owns sessions.
abbrev pub program : Store Endpoint Place ℕ
program = record {
  places = place_key;
  parts = nat_key;
  look = look;
  put = put;
  remove = remove;
  own = own;
  stands = stands;
  perform = perform;
  touches = touches;
  Able = Able;
  look-put = look-put;
  look-remove = look-remove;
  able_stands = Able-stands;
  able_put = Able-put;
  able_remove = Able-remove;
  able_perform = Able-perform;
}
