-- ===== src/Listener/Sessions.antt =====
-- listener.cpp: the table of inbound sessions.
use wshttp.Prelude.{
  ◌≡◌, refl, ◌∙◌, true, Option, none, some, List, [], ◌∷◌, if◌then◌else◌, Option-cases, inl, inr,
  arith,
}
use wshttp.Prelude.Outcome.{Result, ok, throw, Result-cases}
use wshttp.Maps.{find}
use wshttp.Maps.Laws.{find-erase, find-cons, find-assign_new, try_emplace_new, try_emplace_taken}
use wshttp.Address.Ip.{IpAddress, Sockaddr, of_sockaddr, equal}
use wshttp.Address.Ip.Keys.{ip_key, equal_left, equal_refl}
use wshttp.Session.{Session, Posted, listener_close_session, node_close_session, new_session}
use wshttp.Session.Setup.{Net, init_internals_inbound, new_ssl, local_address}
use wshttp.Listener.{
  Listener, make_inbound, create_inbound_session, accept_cb, close_session, close_all,
}

-- What a connection leaves under its own address: nothing where it had an entry already, and else
-- the session, or a null pointer where the constructor throws.
abbrev pub entry_after : Option (Option Session) → Result Session → Option (Option Session)
entry_after (some _) made = none
entry_after none (ok s) = some (some s)
entry_after none (throw _) = some none

abbrev pub outcome_after : Option (Option Session) → Result Session → Result (Unit {0})
outcome_after (some _) made = ok tt
outcome_after none (ok _) = ok tt
outcome_after none (throw e) = throw e

-- A connection changes the entry of its own address only. A second one from an address that has an
-- entry removes that entry, and is not an error; a first one adds its session, or leaves a null
-- pointer and the exception where the session cannot be made.
pub create_inbound_session_lem :
    (net : Net) (remote j : IpAddress) (l : Listener)
    → (find j (create_inbound_session net remote l).0.sessions ≡ (
        if equal remote j
        then entry_after (find remote l.sessions) (make_inbound net remote)
        else find j l.sessions))
      × ((create_inbound_session net remote l).1
          ≡ outcome_after (find remote l.sessions) (make_inbound net remote))
unfolding create_inbound_session
create_inbound_session_lem net remote j l = elim (Option-cases (find remote l.sessions)) [
  | inl e ↦ elim (Result-cases (make_inbound net remote)) [
    | inl (x, made) ↦
        rw
          (
            try_emplace_new remote none l.sessions e,
            e,
            made,
            try_emplace_new remote none l.sessions e,
          )
          (find-cons remote j none l.sessions, refl)
    | inr (s, made) ↦
        rw
          (
            try_emplace_new remote none l.sessions e,
            e,
            made,
            try_emplace_new remote none l.sessions e,
          )
          (find-assign_new remote j none (some s) l.sessions, refl)
  ]
  | inr (entry, e) ↦
      rw (try_emplace_taken remote none entry l.sessions e, e)
        (find-erase remote j l.sessions, refl)
]

init_internals-remote :
    (net : Net) (s s' : Session)
    → init_internals_inbound net s ≡ ok s'
    → s'.ends.remote ≡ s.ends.remote
unfolding init_internals_inbound new_ssl local_address
init_internals-remote net s s' e = ground arith

-- The job that a session posts to close itself, run by its listener.
abbrev pub run_posted : Posted → Listener → Listener
run_posted (listener_close_session remote) l = close_session remote l
run_posted (node_close_session _) l = l

-- What happens to a listener: a connection, a job of a session, and the shutdown.
pub data Move : Type 0 where
  accepted : Net → Sockaddr → Move
  posted : Posted → Move
  shut : Move

abbrev pub move : Listener → Move → Listener
move l (accepted net addr) = (accept_cb net addr l).0
move l (posted job) = run_posted job l
move l shut = close_all l

abbrev pub run_moves : Listener → List Move → Listener
run_moves l [] = l
run_moves l (m ∷ ms) = run_moves (move l m) ms

-- Each session stands under its own remote address.
abbrev pub IsKeyed : Listener → Type 0
IsKeyed l =
    (k : IpAddress) (s : Session) → find k l.sessions ≡ some (some s) → equal s.ends.remote k ≡ true

make_inbound-remote :
    (net : Net) (remote : IpAddress) (s : Session)
    → make_inbound net remote ≡ ok s
    → s.ends.remote ≡ remote
unfolding make_inbound new_session
make_inbound-remote net remote s e = init_internals-remote net _ s e

create-IsKeyed :
    (net : Net) (remote : IpAddress) (l : Listener)
    → IsKeyed l
    → IsKeyed (create_inbound_session net remote l).0
create-IsKeyed net remote l keyed k s found = ground (
  arith,
  (create_inbound_session_lem net remote k l).0,
  make_inbound-remote net remote s,
  keyed k s,
  found,
  equal_refl k,
)

accept_cb-IsKeyed :
    (net : Net) (addr : Sockaddr) (l : Listener) → IsKeyed l → IsKeyed (accept_cb net addr l).0
unfolding accept_cb
accept_cb-IsKeyed net addr l keyed = elim (Result-cases (of_sockaddr net.big_endian addr)) [
  | inl (e, bad) ↦ rw (accept_cb, bad) keyed
  | inr (remote, good) ↦ rw (accept_cb, good) (create-IsKeyed net remote l keyed)
]

close_session-IsKeyed :
    (remote : IpAddress) (l : Listener) → IsKeyed l → IsKeyed (close_session remote l)
unfolding close_session
close_session-IsKeyed remote l keyed k s found =
    ground (arith, find-erase remote k l.sessions, keyed k s, found)

move-IsKeyed : (l : Listener) (m : Move) → IsKeyed l → IsKeyed (move l m)
unfolding close_all find
move-IsKeyed l (accepted net addr) keyed = accept_cb-IsKeyed net addr l keyed
move-IsKeyed l (posted (listener_close_session remote)) keyed = close_session-IsKeyed remote l keyed
move-IsKeyed l (posted (node_close_session _)) keyed = keyed
move-IsKeyed l shut keyed = λ k s found. ground arith

-- Whatever connections, jobs and shutdowns a listener has seen, each session stands under its own
-- remote address.
pub run_moves-IsKeyed : (l : Listener) (ms : List Move) → IsKeyed l → IsKeyed (run_moves l ms)
run_moves-IsKeyed l [] keyed = keyed
run_moves-IsKeyed l (m ∷ ms) keyed = run_moves-IsKeyed (move l m) ms (move-IsKeyed l m keyed)

-- In a listener whose sessions stand under their remote addresses, the job that a session posts by
-- `close_session` removes that session, and no other.
pub close_own_session :
    (l : Listener) (k j : IpAddress) (s : Session)
    → IsKeyed l
    → find k l.sessions ≡ some (some s)
    → find j (run_posted (listener_close_session s.ends.remote) l).sessions
      ≡ (if equal k j then none else find j l.sessions)
unfolding close_session
close_own_session l k j s keyed found =
    find-erase s.ends.remote j l.sessions ∙ rw (equal_left s.ends.remote k j (keyed k s found)) refl
