-- ===== src/Listener/Order.antt =====
-- listener.cpp: a listener does not depend on the order of its table, nor on that of connections and
-- closings that concern different peers.
use mathlib.Core.Quot
use mathlib.Core.Quot.{Quot, Quot-set}
use wshttp.Prelude.{◌≡◌, refl, sym, ◌∙◌, false, Option, none, [], arith, if◌then◌else◌}
use wshttp.Prelude.Outcome.{Result, ok}
use wshttp.Maps.{find}
use wshttp.Maps.Alike.{Alike, Alike-erase}
use wshttp.Maps.Laws.{find-erase, same_comm}
use wshttp.Address.Ip.{IpAddress, equal}
use wshttp.Address.Ip.Keys.{ip_key, equal_left}
use wshttp.Session.{Session}
use wshttp.Session.Setup.{Net}
use wshttp.Listener.{Listener, create_inbound_session, make_inbound, close_session}
use wshttp.Listener.Sessions.{create_inbound_session_lem, entry_after}

-- A listener without its table.
abbrev rest_of : Listener → Listener
rest_of l = record l { sessions = [] }

-- Listeners with the same sessions under the same addresses, in whatever order.
pub record AlikeListeners (l l' : Listener) : Type 0 where
  pub same_rest : rest_of l ≡ rest_of l'
  pub same_sessions : Alike l.sessions l'.sessions

create-rest :
    (net : Net) (remote : IpAddress) (l : Listener)
    → rest_of (create_inbound_session net remote l).0 ≡ rest_of l
unfolding create_inbound_session
create-rest net remote l = ground arith

pub create-Alike :
    (net : Net) (remote : IpAddress) (l l' : Listener)
    → AlikeListeners l l'
    → AlikeListeners
        (create_inbound_session net remote l).0
        (create_inbound_session net remote l').0
      × ((create_inbound_session net remote l).1 ≡ (create_inbound_session net remote l').1)
create-Alike net remote l l' alike = (
  record {
    same_rest = create-rest net remote l ∙ alike.same_rest ∙ sym (create-rest net remote l');
    same_sessions = λ j.
        (create_inbound_session_lem net remote j l).0
        ∙ rw (alike.same_sessions j, alike.same_sessions remote)
            (sym (create_inbound_session_lem net remote j l').0);
  },
  (create_inbound_session_lem net remote remote l).1
      ∙ rw (alike.same_sessions remote) (sym (create_inbound_session_lem net remote remote l').1),
)

pub close_session-Alike :
    (remote : IpAddress) (l l' : Listener)
    → AlikeListeners l l'
    → AlikeListeners (close_session remote l) (close_session remote l')
unfolding close_session
close_session-Alike remote l l' alike = record {
  same_rest = alike.same_rest;
  same_sessions = Alike-erase remote l.sessions l'.sessions alike.same_sessions;
}

-- A listener up to the order of its table.
abbrev pub Unordered : Type 0
Unordered = Quot AlikeListeners

-- What concerns one peer: a connection from it, or the end of its session.
pub data Touch : Type 0 where
  connection : Net → IpAddress → Touch
  closing : IpAddress → Touch

abbrev pub peer_of : Touch → IpAddress
peer_of (connection net remote) = remote
peer_of (closing remote) = remote

abbrev pub touch : Touch → Listener → Listener
touch (connection net remote) l = (create_inbound_session net remote l).0
touch (closing remote) l = close_session remote l

abbrev pub outcome_of : Touch → Listener → Result (Unit {0})
outcome_of (connection net remote) l = (create_inbound_session net remote l).1
outcome_of (closing remote) l = ok tt

pub touch-Alike :
    (t : Touch) (l l' : Listener) → AlikeListeners l l' → AlikeListeners (touch t l) (touch t l')
touch-Alike (connection net remote) l l' alike = (create-Alike net remote l l' alike).0
touch-Alike (closing remote) l l' alike = close_session-Alike remote l l' alike

abbrev pub touched : Touch → Unordered → Unordered
touched t =
    Quot.lift Quot-set (λ l. Quot.mk (touch t l))
      λ l l' alike. Quot.sound (touch-Alike t l l' alike)

-- What it leaves under the address of the peer.
abbrev entry_of : Touch → Option (Option Session) → Option (Option Session)
entry_of (connection net remote) old = entry_after old (make_inbound net remote)
entry_of (closing remote) old = none

find-touch :
    (t : Touch) (j : IpAddress) (l : Listener)
    → find j (touch t l).sessions ≡ (
        if equal (peer_of t) j then entry_of t (find (peer_of t) l.sessions) else find j l.sessions)
unfolding close_session
find-touch (connection net remote) j l = (create_inbound_session_lem net remote j l).0
find-touch (closing remote) j l = find-erase remote j l.sessions

touch-rest : (t : Touch) (l : Listener) → rest_of (touch t l) ≡ rest_of l
unfolding close_session
touch-rest (connection net remote) l = create-rest net remote l
touch-rest (closing remote) l = refl

-- The other peer's entry is left alone.
find-touch_other :
    (t : Touch) (j : IpAddress) (l : Listener)
    → equal (peer_of t) j ≡ false
    → find j (touch t l).sessions ≡ find j l.sessions
find-touch_other t j l miss = find-touch t j l ∙ rw miss refl

touch_twice-Alike :
    (a b : Touch) (l : Listener)
    → equal (peer_of a) (peer_of b) ≡ false
    → AlikeListeners (touch a (touch b l)) (touch b (touch a l))
touch_twice-Alike a b l apart =
    let apart' : equal (peer_of b) (peer_of a) ≡ false =
      same_comm (peer_of b) (peer_of a) ∙ apart in
    record {
      same_rest =
          touch-rest a (touch b l)
          ∙ touch-rest b l
          ∙ sym (touch-rest b (touch a l) ∙ touch-rest a l);
      same_sessions = λ j. ground (
        arith,
        find-touch a j (touch b l),
        find-touch b j (touch a l),
        find-touch a j l,
        find-touch b j l,
        find-touch_other b (peer_of a) l apart',
        find-touch_other a (peer_of b) l apart,
        equal_left (peer_of a) j (peer_of b),
        same_comm (peer_of b) j,
      );
    }

outcome_of-touch :
    (a b : Touch) (l : Listener)
    → equal (peer_of a) (peer_of b) ≡ false
    → outcome_of a (touch b l) ≡ outcome_of a l
outcome_of-touch (closing remote) b l apart = refl
outcome_of-touch (connection net remote) b l apart =
    (create_inbound_session_lem net remote remote (touch b l)).1
    ∙ rw (find-touch_other b remote l (same_comm (peer_of b) remote ∙ apart))
        (sym (create_inbound_session_lem net remote remote l).1)

-- Up to the order of the table it makes no difference in which order two connections, or ends of
-- sessions, come that concern different peers; and what a connection returns or throws is the same
-- before and after the other.
pub touches_commute :
    (a b : Touch) (l : Listener)
    → equal (peer_of a) (peer_of b) ≡ false
    → (touched a (touched b (Quot.mk l)) ≡ touched b (touched a (Quot.mk l)))
      × (outcome_of a (touch b l) ≡ outcome_of a l)
touches_commute a b l apart =
    (Quot.sound (touch_twice-Alike a b l apart), outcome_of-touch a b l apart)
