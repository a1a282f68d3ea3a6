-- ===== src/Examples/Sharding.antt =====
-- A cluster of three nodes under internal/sharding/hrw.go.
use monofs.Prelude.{
  ◌<◌, ◌≤◌, ◌≡◌, refl, ◌⊎◌, true, false, not, none, some, Option, List, [], ◌∷◌, ◌++◌, All, length,
  filter, arith, codes, Text, text_eq,
}
use mathlib.Core.Bool.{false≢true}
use mathlib.Core.Path.{ap}
use mathlib.Core.List.{Permᴰ}
use monofs.Sharding.Fnv.{fnv64a}
use monofs.Sharding.{
  has_node, Node, Hrw, NodeInfo, compute_score, get_node, update_nodes, set_node_health,
  update_node_health_from_proto, get_node_by_id, get_all_nodes, get_healthy_nodes,
  healthy_node_count,
}
use monofs.Sharding.Best.{IsBest, get_node-IsBest}
use monofs.Sharding.Stability.{
  get_node-remove, get_node-add, get_node-set_node_health, compute_score_wraps,
}
use monofs.Sharding.Health.{
  DistinctIds, Omits, update_node_health-DistinctIds, get_node_by_id-update_node_health,
}
use monofs.Sharding.TopN.{get_nodes, dropped_nodes, length-get_nodes, get_nodes_top}
use monofs.Sharding.InsertionSort.{insertion_sort, sort_scores}
use monofs.Sharding.Agreement.{get_nodes-get_node}

abbrev node : Text → Node
node id = record { id = id; address = codes "10.0.0.1:9000"; weight = 100; healthy = true }

abbrev n1 : Node
n1 = node (codes "node1")

abbrev n2 : Node
n2 = node (codes "node2")

abbrev n3 : Node
n3 = record (node (codes "node3")) { healthy = false }

abbrev cluster : Hrw
cluster = record { nodes = n1 ∷ n2 ∷ n3 ∷ [] }

abbrev key : Text
key = codes "storage:main.go"

chosen : get_node key cluster ≡ some n1
unfolding get_node
chosen = refl

get_node-IsBest_example : IsBest (compute_score key) n1 cluster.nodes
get_node-IsBest_example = (get_node-IsBest key cluster n1).0 chosen

get_node-remove_example :
    get_node key
      (update_nodes (filter (λ n. not (text_eq n.id (codes "node2"))) cluster.nodes) cluster)
    ≡ some n1
unfolding text_eq
get_node-remove_example =
    get_node-remove key cluster (λ n. not (text_eq n.id (codes "node2"))) n1 chosen refl

-- A fourth node takes nothing from the others, or takes the key.
abbrev n4 : Node
n4 = node (codes "node4")

grown : get_node key (update_nodes (cluster.nodes ++ n4 ∷ []) cluster) ≡ some n4
unfolding get_node update_nodes
grown = refl

get_node-add_example : (n4 ≡ n4) ⊎ (get_node key cluster ≡ some n4)
get_node-add_example = get_node-add key cluster n4 n4 grown

get_node-set_node_health_example :
    get_node key (set_node_health (codes "node2") false cluster).0 ≡ some n1
unfolding text_eq
get_node-set_node_health_example =
    get_node-set_node_health key cluster n1 (codes "node2") chosen
      (λ e. false≢true (ap (λ t. text_eq t (codes "node2")) e))

-- A key whose hash with the node's id is above 2 ^ 63.
compute_score_wraps_example :
    compute_score (codes "c") (record n1 { weight = 2 })
    < compute_score (codes "c") (record n1 { weight = 1 })
unfolding fnv64a
compute_score_wraps_example = compute_score_wraps (codes "c") n1 (omega arith)

length-get_nodes_example : length (get_nodes insertion_sort key 3 cluster) ≡ 2
unfolding healthy_node_count
length-get_nodes_example = length-get_nodes insertion_sort key 3 cluster

get_nodes_top_example :
    Permᴰ
      (get_nodes insertion_sort key 1 cluster ++ dropped_nodes insertion_sort key 1 cluster)
      (get_healthy_nodes cluster)
    × All
        (λ r.
          All
            (λ d. compute_score key d ≤ compute_score key r)
            (dropped_nodes insertion_sort key 1 cluster))
        (get_nodes insertion_sort key 1 cluster)
get_nodes_top_example = get_nodes_top insertion_sort key 1 cluster

two_best : get_nodes insertion_sort key 2 cluster ≡ n1 ∷ n2 ∷ []
unfolding get_nodes compute_score sort_scores
two_best = refl

get_nodes-get_node_example : compute_score key n1 ≡ compute_score key n1
get_nodes-get_node_example =
    get_nodes-get_node insertion_sort key 1 cluster n1 n1 (n2 ∷ []) two_best chosen

-- node1 comes twice, node2 and node3 are not mentioned, and node5 comes twice.
abbrev report : List (Option NodeInfo)
report =
    some (record { node_id = codes "node1"; address = codes "c"; weight = 7; healthy = false })
    ∷ some (record {
      node_id = codes "node1";
      address = codes "10.0.0.9:9000";
      weight = 50;
      healthy = true;
    })
    ∷ none
    ∷ some (record { node_id = codes "node5"; address = codes "a"; weight = 1; healthy = true })
    ∷ some (record { node_id = codes "node5"; address = codes "b"; weight = 1; healthy = true })
    ∷ []

distinct : DistinctIds cluster.nodes
unfolding has_node text_eq
distinct = (refl, (refl, (refl, tt)))

update_node_health-DistinctIds_example :
    DistinctIds (update_node_health_from_proto report cluster).nodes
update_node_health-DistinctIds_example = update_node_health-DistinctIds report cluster distinct

known : get_node_by_id (codes "node1") cluster ≡ some n1
unfolding get_node_by_id text_eq
known = refl

get_node_by_id-update_node_health_example :
    ((before after : List (Option NodeInfo)) × (info : NodeInfo) × (report
        ≡ before ++ some info ∷ after)
      × (info.node_id ≡ codes "node1")
      × All (Omits (codes "node1")) after
      × (get_node_by_id (codes "node1") (update_node_health_from_proto report cluster)
          ≡ some (record {
            id = n1.id;
            address = info.address;
            weight = info.weight;
            healthy = info.healthy;
          })))
    ⊎ (All (Omits (codes "node1")) report
        × (get_node_by_id (codes "node1") (update_node_health_from_proto report cluster)
            ≡ some
                (record { id = n1.id; address = n1.address; weight = n1.weight; healthy = false })))
get_node_by_id-update_node_health_example =
    get_node_by_id-update_node_health (codes "node1") report cluster n1 known

-- node1 takes its later entry, and node2 is marked unhealthy.
node1_moves :
    get_node_by_id (codes "node1") (update_node_health_from_proto report cluster)
    ≡ some (record {
      id = codes "node1";
      address = codes "10.0.0.9:9000";
      weight = 50;
      healthy = true;
    })
unfolding get_node_by_id text_eq update_node_health_from_proto
node1_moves = refl

node2_is_lost :
    get_node_by_id (codes "node2") (update_node_health_from_proto report cluster)
    ≡ some (record n2 { healthy = false })
unfolding get_node_by_id text_eq update_node_health_from_proto
node2_is_lost = refl

all_nodes : get_all_nodes (update_nodes (n3 ∷ n1 ∷ []) cluster) ≡ n3 ∷ n1 ∷ []
unfolding get_all_nodes update_nodes
all_nodes = refl
