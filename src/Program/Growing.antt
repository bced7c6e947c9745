-- ===== src/Program/Growing.antt =====
-- endpoint.hpp and listener.cpp: the program's listeners, and what a new one changes.
use wshttp.Prelude.{
  ℕ, ◌≡◌, refl, sym, subst, ap, ◌∙◌, inl, inr, true, none, some, [], ◌∷◌, Option, All, arith,
  Bool-cases, Option-cases, nat_eqb, nat_eqb_iff,
}
use wshttp.Prelude.Outcome.{ok}
use wshttp.Maps.{find, assign, nat_key}
use wshttp.Maps.Laws.{
  All-find, All-assign, All-assign_new, All-erase, find-assign_new, find_same, find_of_empty,
  try_emplace_new, try_emplace_taken,
}
use wshttp.Address.Ip.Keys.{ip_key}
use wshttp.Session.{Session}
use wshttp.Listener.{Listener, Binding, init_internals, new_listener, close_session, close_listener}
use wshttp.Endpoint.{Endpoint, Listeners, listen}
use wshttp.Endpoint
use wshttp.Endpoint.Tables.{AreLive}
use wshttp.Owned.{become}
use wshttp.Owned.Keeping.{become-Good}
use wshttp.Program.{
  Place, inbound_at, outbound_at, look, put, remove, perform, change_entry, with_inbound,
}
use wshttp.Program.Places.{program, Able}
use wshttp.Program.Steps.{Running, listens_on}
use wshttp.Program.Keeping.{OnPort, Sane, Fine, Whole}

pub Sane-Able :
    (port : ℕ) (l : Listener) (e : Endpoint)
    → Sane e
    → find port e.listeners ≡ some (some l)
    → Able port e
Sane-Able port l e sane found =
    let (j, same, on) = All-find OnPort port (some l) e.listeners sane found in
    (l, found, on ∙ (nat_eqb_iff j port).0 same)

pub Sane-AreLive : (ls : Listeners) → All OnPort ls → AreLive ls
Sane-AreLive [] sane = tt
Sane-AreLive ((port, some l) ∷ ls) (on, sane) = Sane-AreLive ls sane
Sane-AreLive ((port, none) ∷ ls) (on, sane) = absurd on

-- A listener is put back under its port.
pub assign-OnPort :
    (port : ℕ) (l m : Listener) (ls : Listeners)
    → find port ls ≡ some (some l)
    → m.local.port ≡ l.local.port
    → All OnPort ls
    → All OnPort (assign port (some m) ls)
assign-OnPort port l m ls found kept sane =
    let (j, same, on) = All-find OnPort port (some l) ls sane found in
    All-assign OnPort port (some m) ls
      (λ k alike. kept ∙ on ∙ (nat_eqb_iff j port).0 same ∙ sym ((nat_eqb_iff k port).0 alike)) sane

pub change_entry-OnPort :
    (port : ℕ) (f : Listener → Listener) (ls : Listeners)
    → ((l : Listener) → (f l).local ≡ l.local)
    → All OnPort ls
    → All OnPort (change_entry port f ls)
unfolding change_entry
change_entry-OnPort port f ls kept sane = elim (Option-cases (find port ls)) [
  | inl free ↦ rw (change_entry, free) sane
  | inr (none, null) ↦ rw (change_entry, null) sane
  | inr (some l, found) ↦
      rw (change_entry, found)
        (assign-OnPort port l (f l) ls found (ap (λ a. a.port) (kept l)) sane)
]

pub put-Sane : (p : Place) (u : Session) (e : Endpoint) → Sane e → Sane (put p u e)
unfolding put
put-Sane (inbound_at port a) u e sane =
    change_entry-OnPort port (with_inbound a u) e.listeners (λ l. refl) sane
put-Sane (outbound_at n h) u e sane = sane

pub remove-Sane : (p : Place) (e : Endpoint) → Sane e → Sane (remove p e)
unfolding remove close_session
remove-Sane (inbound_at port a) e sane =
    change_entry-OnPort port (close_session a) e.listeners (λ l. refl) sane
remove-Sane (outbound_at n h) e sane = sane

pub perform-Sane : (port : ℕ) (e e' : Endpoint) → perform port e ≡ ok e' → Sane e → Sane e'
unfolding perform Endpoint.close_listener
perform-Sane port e e' did sane = elim (Option-cases (find port e.listeners)) [
  | inl free ↦ absurd (ground (arith, free, did))
  | inr (none, null) ↦ absurd (ground (arith, null, did))
  | inr (some l, found) ↦
      let same : Endpoint.close_listener (close_listener l) e ≡ e' = ground (arith, found, did) in
      subst Sane same (All-erase OnPort (close_listener l) e.listeners sane)
]

-- A listener on a new port has no sessions.
pub init_internals-sessions :
    (b : Binding) (port : ℕ) (l : Listener)
    → init_internals b (new_listener port) ≡ ok l
    → l.sessions ≡ []
unfolding init_internals new_listener
init_internals-sessions b port l did = ground arith

listen_new :
    (b : Binding) (port : ℕ) (l : Listener) (e : Endpoint)
    → find port e.listeners ≡ none
    → init_internals b (new_listener port) ≡ ok l
    → listen b port e
      ≡ (record e { listeners = assign port (some l) ((port, none) ∷ e.listeners) }, ok true)
unfolding listen
listen_new b port l e free did =
    rw
      (
        listen,
        try_emplace_new port none e.listeners free,
        did,
        try_emplace_new port none e.listeners free,
      )
      refl

listened_looks :
    (port : ℕ) (l : Listener) (e : Endpoint) (p : Place)
    → find port e.listeners ≡ none
    → l.sessions ≡ []
    → look p (record e { listeners = assign port (some l) ((port, none) ∷ e.listeners) }) ≡ look p e
unfolding look
listened_looks port l e (inbound_at q a) free empty = elim (Bool-cases (nat_eqb port q)) [
  | inl hit ↦
      rw
        (
          find-assign_new port q none (some l) e.listeners,
          hit,
          find_of_empty a l.sessions empty,
          sym (find_same port q e.listeners hit) ∙ free,
        )
        refl
  | inr miss ↦ rw (find-assign_new port q none (some l) e.listeners, miss) refl
]
listened_looks port l e (outbound_at n h) free empty = refl

listened-Able :
    (port d : ℕ) (l : Listener) (e : Endpoint)
    → find port e.listeners ≡ none
    → Able d e
    → Able d (record e { listeners = assign port (some l) ((port, none) ∷ e.listeners) })
listened-Able port d l e free (m, found, on) = elim (Bool-cases (nat_eqb port d)) [
  | inl hit ↦ absurd (ground (arith, find_same port d e.listeners hit, free, found))
  | inr miss ↦ (m, find-assign_new port d none (some l) e.listeners ∙ rw miss found, on)
]

-- Where nothing changes.
pub become-Whole : (w : Running) → Whole w → Whole (become program w.state w)
unfolding become
become-Whole w whole = record {
  good = become-Good program Fine w.state w (λ p. inl refl) (λ d able. able) whole.good;
  sane = whole.sane;
}

listens_new :
    (b : Binding) (port : ℕ) (l : Listener) (w : Running)
    → find port w.state.listeners ≡ none
    → init_internals b (new_listener port) ≡ ok l
    → l.local.port ≡ port
    → Whole w
    → Whole (listens_on b port w)
unfolding listens_on become
listens_new b port l w free did on whole =
    let e' : Endpoint = record (w.state) {
      listeners = assign port (some l) ((port, none) ∷ w.state.listeners);
    } in
    rw (listens_on, listen_new b port l w.state free did)
      (record {
        good =
            become-Good program Fine e' w
              (λ p.
                inl (listened_looks port l w.state p free (init_internals-sessions b port l did)))
              (λ d. listened-Able port d l w.state free) whole.good;
        sane =
            All-assign_new OnPort port (some l) none w.state.listeners
              (λ k alike. on ∙ sym ((nat_eqb_iff k port).0 alike)) whole.sane;
      })

listen_taken :
    (b : Binding) (port : ℕ) (old : Option Listener) (e : Endpoint)
    → find port e.listeners ≡ some old
    → (listen b port e).0 ≡ e
unfolding listen
listen_taken b port old e found =
    rw (listen, try_emplace_taken port none old e.listeners found) refl

pub listens_on-Whole :
    (b : Binding) (port : ℕ) (w : Running)
    → (find port w.state.listeners ≡ none
        → (l : Listener) × (init_internals b (new_listener port) ≡ ok l) × (l.local.port ≡ port))
    → Whole w
    → Whole (listens_on b port w)
unfolding listens_on
listens_on-Whole b port w makes whole = elim (Option-cases (find port w.state.listeners)) [
  | inl free ↦ let (l, did, on) = makes free in listens_new b port l w free did on whole
  | inr (old, found) ↦ rw (listens_on, listen_taken b port old w.state found) (become-Whole w whole)
]
