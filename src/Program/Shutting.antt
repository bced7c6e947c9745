-- ===== src/Program/Shutting.antt =====
-- endpoint.cpp and listener.cpp: what a shutdown changes of the program.
use wshttp.Prelude.{ℕ, ◌≡◌, refl, ◌∙◌, inl, inr, none, some, [], ◌∷◌, All, arith}
use wshttp.Maps.{find, nat_key}
use wshttp.Address.Ip.{IpAddress}
use wshttp.Listener.{close_all}
use wshttp.Endpoint.{Endpoint, Listeners}
use wshttp.Endpoint.Tables.{all_closed, shutdown_endpoint_lem}
use wshttp.Owned.{become, IsQuiet}
use wshttp.Owned.Keeping.{Change, become-Good}
use wshttp.Program.{Place, inbound_at, outbound_at, look, mapped}
use wshttp.Program.Places.{program, Able}
use wshttp.Program.Steps.{Running, shut}
use wshttp.Program.Keeping.{Fine, OnPort, Whole, WholeResult}
use wshttp.Program.Growing.{Sane-AreLive}

find-all_closed :
    (port : ℕ) (ls : Listeners) → find port (all_closed ls) ≡ mapped close_all (find port ls)
unfolding find close_all
find-all_closed port [] = refl
find-all_closed port ((q, some l) ∷ ls) = ground (arith, find-all_closed port ls)
find-all_closed port ((q, none) ∷ ls) = ground (arith, find-all_closed port ls)

pub all_closed-OnPort : (ls : Listeners) → All OnPort ls → All OnPort (all_closed ls)
unfolding close_all
all_closed-OnPort [] sane = tt
all_closed-OnPort ((q, some l) ∷ ls) (on, sane) = (on, all_closed-OnPort ls sane)
all_closed-OnPort ((q, none) ∷ ls) (on, sane) = absurd on

-- The endpoint with every session of every listener closed.
abbrev pub emptied_endpoint : Endpoint → Endpoint
emptied_endpoint e = record e { listeners = all_closed e.listeners }

pub shut_looks :
    (port : ℕ) (a : IpAddress) (e : Endpoint) → look (inbound_at port a) (emptied_endpoint e) ≡ none
unfolding look close_all find
shut_looks port a e = rw (find-all_closed port e.listeners) (ground arith)

shut-Able : (port : ℕ) (e : Endpoint) → Able port e → Able port (emptied_endpoint e)
unfolding close_all
shut-Able port e (l, found, on) =
    (close_all l, find-all_closed port e.listeners ∙ rw found refl, on)

shut_Change :
    (w : Running)
    → ((port : ℕ) (remote : IpAddress) → IsQuiet program (inbound_at port remote) w.pending)
    → (p : Place) → Change program Fine w.pending w.state (emptied_endpoint w.state) p
unfolding look
shut_Change w quiet (inbound_at port a) =
    inr (quiet port a, λ v found. absurd (ground (arith, shut_looks port a w.state, found)))
shut_Change w quiet (outbound_at n h) = inl refl

pub shut-Whole :
    (w : Running)
    → ((port : ℕ) (remote : IpAddress) → IsQuiet program (inbound_at port remote) w.pending)
    → Whole w
    → WholeResult (shut w)
unfolding shut become
shut-Whole w quiet whole =
    rw (shut, shutdown_endpoint_lem w.state (Sane-AreLive w.state.listeners whole.sane))
      (record {
        good =
            become-Good program Fine (emptied_endpoint w.state) w (shut_Change w quiet)
              (λ port. shut-Able port w.state) whole.good;
        sane = all_closed-OnPort w.state.listeners whole.sane;
      })
