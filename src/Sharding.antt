-- ===== src/Sharding.antt =====
-- Rendezvous hashing: internal/sharding/hrw.go. The lock serialises the methods, so each is one
-- step on the list of nodes. A string is here the list of its bytes, which the hash reads.
pub mod Fnv
pub mod Best
pub mod Stability
pub mod Agreement
pub mod TopN
pub mod InsertionSort
pub mod Health
use monofs.Prelude.{
  ℕ, zero, suc, ◌*◌, ◌%◌, ◌^◌, Bool, true, false, not, ◌||◌, Option, none, some, List, [], ◌∷◌,
  ◌++◌, length, filter, ltb, ◌==◌, if◌then◌else◌, Text, text_eq, has_text,
}
use mathlib.Core.Option
use monofs.Sharding.Fnv.{fnv64a}

pub record Node : Type 0 where
  pub id : Text
  pub address : Text
  pub weight : ℕ  -- uint32
  pub healthy : Bool

pub record Hrw : Type 0 where
  pub nodes : List Node

-- The fields of `pb.NodeInfo` that the package reads.
pub record NodeInfo : Type 0 where
  pub node_id : Text
  pub address : Text
  pub weight : ℕ  -- uint32
  pub healthy : Bool

abbrev pub to_node : NodeInfo → Node
to_node n = record { id = n.node_id; address = n.address; weight = n.weight; healthy = n.healthy }

unfoldable pub new_hrw : List Node → Hrw
new_hrw nodes = record { nodes = nodes }

-- A nil pointer is `none`.
unfoldable pub from_proto : List (Option NodeInfo) → List Node
from_proto [] = []
from_proto (none ∷ ns) = from_proto ns
from_proto (some n ∷ ns) = to_node n ∷ from_proto ns

unfoldable pub new_hrw_from_proto : List (Option NodeInfo) → Hrw
unfolding new_hrw from_proto
new_hrw_from_proto nodes = new_hrw (from_proto nodes)

unfoldable pub update_nodes : List Node → Hrw → Hrw
update_nodes nodes h = record h { nodes = nodes }

unfoldable pub update_nodes_from_proto : List (Option NodeInfo) → Hrw → Hrw
unfolding update_nodes from_proto
update_nodes_from_proto nodes h = update_nodes (from_proto nodes) h

-- `incoming[id]`: of two entries with one id, the later one is kept.
unfoldable pub incoming : Text → List (Option NodeInfo) → Option NodeInfo
incoming id [] = none
incoming id (none ∷ ns) = incoming id ns
incoming id (some n ∷ ns) = elim (incoming id ns) [
  | some m ↦ some m
  | none ↦ if text_eq n.node_id id then some n else none
]

-- The first loop: every known node takes what came in for it, or is marked unhealthy.
abbrev pub refreshed : Node → Option NodeInfo → Node
refreshed node (some info) = record node {
  address = info.address;
  weight = info.weight;
  healthy = info.healthy;
}
refreshed node none = record node { healthy = false }

unfoldable pub refresh : List (Option NodeInfo) → List Node → List Node
unfolding incoming
refresh ns [] = []
refresh ns (node ∷ nodes) = refreshed node (incoming node.id ns) ∷ refresh ns nodes

-- `seen`: the ids of the known nodes that came in.
abbrev pub saw : Text → Option NodeInfo → List Text → List Text
saw id (some info) rest = id ∷ rest
saw id none rest = rest

unfoldable pub seen : List (Option NodeInfo) → List Node → List Text
unfolding incoming
seen ns [] = []
seen ns (node ∷ nodes) = saw node.id (incoming node.id ns) (seen ns nodes)

unfoldable pub has_node : Text → List Node → Bool
has_node id [] = false
has_node id (n ∷ ns) = text_eq n.id id || has_node id ns

-- One round of the second loop.
abbrev pub append_new : List Text → NodeInfo → List Node → List Node
append_new known n nodes =
    if has_text n.node_id known
    then nodes
    else if has_node n.node_id nodes
    then nodes
    else nodes ++ (to_node n ∷ [])

unfoldable pub append_all : List Text → List (Option NodeInfo) → List Node → List Node
unfolding has_text has_node
append_all known [] nodes = nodes
append_all known (none ∷ ns) nodes = append_all known ns nodes
append_all known (some n ∷ ns) nodes = append_all known ns (append_new known n nodes)

unfoldable pub update_node_health_from_proto : List (Option NodeInfo) → Hrw → Hrw
unfolding refresh seen append_all
update_node_health_from_proto ns h = record h {
  nodes = append_all (seen ns h.nodes) ns (refresh ns h.nodes);
}

-- The first node with the id; the result says whether there was one.
unfoldable pub set_health : Text → Bool → List Node → List Node × Bool
set_health id healthy [] = ([], false)
set_health id healthy (n ∷ ns) =
    let (ns', found) = set_health id healthy ns in
    if text_eq n.id id then (record n { healthy = healthy } ∷ ns, true) else (n ∷ ns', found)

unfoldable pub set_node_health : Text → Bool → Hrw → Hrw × Bool
unfolding set_health
set_node_health id healthy h =
    let (nodes, found) = set_health id healthy h.nodes in (record h { nodes = nodes }, found)

-- `hash * weight` on uint64, where a weight of 0 counts as 1.
unfoldable pub compute_score : Text → Node → ℕ
unfolding fnv64a
compute_score key node =
    fnv64a (key ++ node.id) * (if node.weight == 0 then 1 else node.weight) % 2 ^ 64

-- `bestNode` and `bestScore` of the loop of `GetNode`, over any score.
unfoldable pub consider : (Node → ℕ) → Node → Option Node → Option Node
consider score node none = if node.healthy then some node else none
consider score node (some best) =
    if node.healthy
    then (if ltb (score best) (score node) then some node else some best)
    else some best

unfoldable pub best_from : (Node → ℕ) → Option Node → List Node → Option Node
unfolding consider
best_from score best [] = best
best_from score best (node ∷ nodes) = best_from score (consider score node best) nodes

unfoldable pub get_node : Text → Hrw → Option Node
unfolding compute_score best_from
get_node key h = best_from (compute_score key) none h.nodes

unfoldable pub find_node : Text → List Node → Option Node
find_node id [] = none
find_node id (n ∷ ns) = if text_eq n.id id then some n else find_node id ns

unfoldable pub get_node_by_id : Text → Hrw → Option Node
unfolding find_node
get_node_by_id id h = find_node id h.nodes

-- `GetAllNodes`, whose copy is the list itself, as lists do not change.
unfoldable pub get_all_nodes : Hrw → List Node
get_all_nodes h = h.nodes

unfoldable pub get_healthy_nodes : Hrw → List Node
get_healthy_nodes h = filter (λ n. n.healthy) h.nodes

unfoldable pub node_count : Hrw → ℕ
node_count h = length h.nodes

unfoldable pub count_healthy : List Node → ℕ
count_healthy [] = 0
count_healthy (n ∷ ns) = let rest = count_healthy ns in if n.healthy then suc rest else rest

unfoldable pub healthy_node_count : Hrw → ℕ
unfolding count_healthy
healthy_node_count h = count_healthy h.nodes
