-- ===== src/Server/Changes.antt =====
-- listener.cpp: the set of the addresses that a table of sessions has, and how it changes.
use wshttp.Prelude.{◌≡◌, refl, sym, ◌∙◌, Bool, false, not, List, [], ◌∷◌, ◌++◌, if◌then◌else◌}
use wshttp.Maps.{find, is_some}
use wshttp.Address.Ip.{IpAddress, equal}
use wshttp.Address.Ip.Keys.{ip_key}
use wshttp.Listener.{Sessions}

abbrev pub Peers : Type 0
Peers = IpAddress → Bool

abbrev pub peers : Sessions → Peers
peers m j = is_some (find j m)

-- A connection from an address makes it a peer, or stops it from being one; a session's job stops it,
-- and a shutdown stops all.
pub data Change : Type 0 where
  connects closes : IpAddress → Change
  closes_all : Change

abbrev pub change : Peers → Change → Peers
change ps (connects k) j = if equal k j then not (ps j) else ps j
change ps (closes k) j = if equal k j then false else ps j
change ps closes_all j = false

abbrev pub change_all : Peers → List Change → Peers
change_all ps [] = ps
change_all ps (c ∷ cs) = change_all (change ps c) cs

-- What has become of a table after those changes.
abbrev pub Changed : Sessions → List Change → Sessions → Type 0
Changed m cs m' = (j : IpAddress) → peers m' j ≡ change_all (peers m) cs j

change-cong :
    (c : Change) (ps qs : Peers)
    → ((j : IpAddress) → ps j ≡ qs j)
    → (j : IpAddress) → change ps c j ≡ change qs c j
change-cong (connects k) ps qs same j = rw (same j) refl
change-cong (closes k) ps qs same j = rw (same j) refl
change-cong closes_all ps qs same j = refl

pub change_all-cong :
    (cs : List Change) (ps qs : Peers)
    → ((j : IpAddress) → ps j ≡ qs j)
    → (j : IpAddress) → change_all ps cs j ≡ change_all qs cs j
change_all-cong [] ps qs same j = same j
change_all-cong (c ∷ cs) ps qs same j =
    change_all-cong cs (change ps c) (change qs c) (change-cong c ps qs same) j

pub change_all-append :
    (ps : Peers) (cs ds : List Change) (j : IpAddress)
    → change_all ps (cs ++ ds) j ≡ change_all (change_all ps cs) ds j
change_all-append ps [] ds j = refl
change_all-append ps (c ∷ cs) ds j = change_all-append (change ps c) cs ds j

pub Changed-trans :
    (m m' m'' : Sessions) (cs ds : List Change)
    → Changed m cs m'
    → Changed m' ds m''
    → Changed m (cs ++ ds) m''
Changed-trans m m' m'' cs ds e e' j =
    e' j
    ∙ change_all-cong ds (peers m') (change_all (peers m) cs) e j
    ∙ sym (change_all-append (peers m) cs ds j)
