-- ===== src/Server/Peers.antt =====
-- listener.cpp, session.cpp and loop.cpp: a server as the set of the addresses that it has sessions
-- with, which is all that its peers see of the table.
use wshttp.Prelude.{List, [], ◌∷◌, ◌++◌}
use wshttp.Prelude.Outcome.{Result, ok, throw}
use wshttp.Address.Ip.Keys.{ip_key}
use wshttp.Session.{Session}
use wshttp.Session.Hooks.{Environment}
use wshttp.Listener.{Listener}
use wshttp.Server.Changes.{Change, connects, closes, closes_all, Changed}
use wshttp.Server.{Job, Server, Step, accepts, event, input, passes, shuts, Reach, here, later}

-- What a step comes to, where it returns.
abbrev Moves : Server → List Change → Result Server → Type 0
Moves s cs (throw e) = Unit
Moves s cs (ok t) = Changed s.listener.sessions cs t.listener.sessions

-- The changes that the jobs of a queue make.
abbrev closings : List Job → List Change
closings [] = []
closings (job ∷ jobs) = closes job.key ∷ closings jobs

abbrev Runs : Listener → List Change → Result Listener → Type 0
Runs l cs (throw e) = Unit
Runs l cs (ok l') = Changed l.sessions cs l'.sessions

-- What its peers see of a step, and of a run: its connections, the jobs of its
-- passes, and the shutdown.
pub seen : {env : Environment} {s : Server} {r : Result Server} → Step env s r → List Change
seen (accepts net name remote is_inet local made quiet e) = connects remote ∷ []
seen (event key t net d ready alpn calls found unset quiet e) = []
seen (input key t h d i calls found set quiet e) = []
seen {s = s} (passes e) = closings s.pending
seen (shuts idle e) = closes_all ∷ []

pub history : {env : Environment} {s : Server} {r : Result Server} → Reach env s r → List Change
history here = []
history (later before step) = history before ++ seen step
