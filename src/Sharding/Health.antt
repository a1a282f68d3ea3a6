-- ===== src/Sharding/Health.antt =====
-- What UpdateNodeHealthFromProto of internal/sharding/hrw.go keeps and changes.
pub mod Named
use monofs.Prelude.{
  ◌≡◌, ◌⊎◌, refl, ap, ap₂, sym, ◌∙◌, inl, inr, true, false, ◌||◌, Option, none, some, List, [], ◌∷◌,
  ◌++◌, All, map, append-nil, append_assoc, arith, Bool-cases, Text, text_eq, text_eq_refl,
  text_eq_comm, text_eq_sound, has_text,
}
use monofs.Sharding.{
  Node, Hrw, NodeInfo, to_node, incoming, refreshed, refresh, saw, seen, has_node, append_new,
  append_all, update_node_health_from_proto, find_node, get_node_by_id,
}

-- No two nodes share an id.
abbrev pub DistinctIds : List Node → Type 0
DistinctIds [] = Unit
DistinctIds (n ∷ ns) = (has_node n.id ns ≡ false) × DistinctIds ns

pub id-refreshed : (n : Node) (o : Option NodeInfo) → (refreshed n o).id ≡ n.id
id-refreshed n none = refl
id-refreshed n (some info) = refl

pub has_node-refresh :
    (id : Text) (ns : List (Option NodeInfo)) (nodes : List Node)
    → has_node id (refresh ns nodes) ≡ has_node id nodes
unfolding has_node refresh
has_node-refresh id ns [] = refl
has_node-refresh id ns (n ∷ nodes) =
    rw (id-refreshed n (incoming n.id ns), has_node-refresh id ns nodes)

refresh-DistinctIds :
    (ns : List (Option NodeInfo)) (nodes : List Node)
    → DistinctIds nodes
    → DistinctIds (refresh ns nodes)
unfolding refresh
refresh-DistinctIds ns [] h = tt
refresh-DistinctIds ns (n ∷ nodes) h = (
  rw (id-refreshed n (incoming n.id ns), has_node-refresh n.id ns nodes) h.0,
  refresh-DistinctIds ns nodes h.1,
)

pub has_node-append :
    (id : Text) (xs ys : List Node) → has_node id (xs ++ ys) ≡ (has_node id xs || has_node id ys)
unfolding has_node
has_node-append id [] ys = refl
has_node-append id (x ∷ xs) ys = ground (arith, has_node-append id xs ys)

pub has_node_last :
    (id : Text) (ns : List Node) (x : Node)
    → has_node id (ns ++ x ∷ []) ≡ (has_node id ns || text_eq x.id id)
unfolding has_node
has_node_last id ns x = ground (arith, has_node-append id ns (x ∷ []))

append_last-DistinctIds :
    (ns : List Node) (x : Node)
    → has_node x.id ns ≡ false
    → DistinctIds ns
    → DistinctIds (ns ++ x ∷ [])
unfolding has_node
append_last-DistinctIds [] x new h = (refl, tt)
append_last-DistinctIds (n ∷ ns) x new h = (
  ground (arith, has_node_last n.id ns x, text_eq_comm n.id x.id),
  append_last-DistinctIds ns x (ground arith) h.1,
)

append_new-DistinctIds :
    (known : List Text) (info : NodeInfo) (nodes : List Node)
    → DistinctIds nodes
    → DistinctIds (append_new known info nodes)
append_new-DistinctIds known info nodes h = elim (Bool-cases (has_text info.node_id known)) [
  | inl e ↦ rw e h
  | inr e ↦ rw e (elim (Bool-cases (has_node info.node_id nodes)) [
    | inl e' ↦ rw e' h
    | inr e' ↦ rw e' (append_last-DistinctIds nodes (to_node info) e' h)
  ])
]

append_all-DistinctIds :
    (known : List Text) (ns : List (Option NodeInfo)) (nodes : List Node)
    → DistinctIds nodes
    → DistinctIds (append_all known ns nodes)
unfolding append_all
append_all-DistinctIds known [] nodes h = h
append_all-DistinctIds known (none ∷ ns) nodes h = append_all-DistinctIds known ns nodes h
append_all-DistinctIds known (some info ∷ ns) nodes h =
    append_all-DistinctIds known ns (append_new known info nodes)
      (append_new-DistinctIds known info nodes h)

-- A health update keeps the ids distinct, also where the update itself names a node twice.
pub update_node_health-DistinctIds :
    (ns : List (Option NodeInfo)) (h : Hrw)
    → DistinctIds h.nodes
    → DistinctIds (update_node_health_from_proto ns h).nodes
unfolding update_node_health_from_proto
update_node_health-DistinctIds ns h d =
    append_all-DistinctIds (seen ns h.nodes) ns (refresh ns h.nodes)
      (refresh-DistinctIds ns h.nodes d)

-- A round of the second loop appends at most.
pub append_new_extends :
    (known : List Text) (info : NodeInfo) (nodes : List Node)
    → (extra : List Node) × (append_new known info nodes ≡ nodes ++ extra)
append_new_extends known info nodes = elim (Bool-cases (has_text info.node_id known)) [
  | inl e ↦ ([], rw e (sym (append-nil nodes)))
  | inr e ↦ elim (Bool-cases (has_node info.node_id nodes)) [
    | inl e' ↦ ([], rw (e, e') (sym (append-nil nodes)))
    | inr e' ↦ (to_node info ∷ [], rw (e, e'))
  ]
]

pub append_all_extends :
    (known : List Text) (ns : List (Option NodeInfo)) (nodes : List Node)
    → (extra : List Node) × (append_all known ns nodes ≡ nodes ++ extra)
unfolding append_all
append_all_extends known [] nodes = ([], sym (append-nil nodes))
append_all_extends known (none ∷ ns) nodes = append_all_extends known ns nodes
append_all_extends known (some info ∷ ns) nodes =
    let (a, p) = append_new_extends known info nodes in
    let (b, q) = append_all_extends known ns (append_new known info nodes) in
    (a ++ b, q ∙ ap (λ l. l ++ b) p ∙ append_assoc nodes a b)

find_node-append :
    (id : Text) (xs ys : List Node) (n : Node)
    → find_node id xs ≡ some n
    → find_node id (xs ++ ys) ≡ some n
unfolding find_node
find_node-append id [] ys n e = absurd (ground arith)
find_node-append id (x ∷ xs) ys n e = ground (arith, find_node-append id xs ys n)

find_node-refresh :
    (id : Text) (ns : List (Option NodeInfo)) (nodes : List Node) (n : Node)
    → find_node id nodes ≡ some n
    → find_node id (refresh ns nodes) ≡ some (refreshed n (incoming id ns))
unfolding find_node refresh
find_node-refresh id ns [] n e = absurd (ground arith)
find_node-refresh id ns (m ∷ nodes) n e = elim (Bool-cases (text_eq m.id id)) [
  | inl t ↦
      let same : m ≡ n = cc (rw t at e) in
      rw (id-refreshed m (incoming m.id ns), t)
        (ap₂ (λ (x : Node) i. some (refreshed x (incoming i ns))) same (text_eq_sound m.id id t))
  | inr t ↦ rw (id-refreshed m (incoming m.id ns), t) (find_node-refresh id ns nodes n (rw t at e))
]

-- No entry of an update is about an id.
abbrev pub Omits : Text → Option NodeInfo → Type 0
Omits id none = Unit
Omits id (some info) = text_eq info.node_id id ≡ false

-- The last entry about an id, if there is one.
abbrev Reports : Text → List (Option NodeInfo) → NodeInfo → Type 0
Reports id ns info =
    (before after : List (Option NodeInfo)) × (ns ≡ before ++ some info ∷ after)
    × (info.node_id ≡ id)
    × All (Omits id) after

incoming-Reports :
    (id : Text) (ns : List (Option NodeInfo))
    → ((incoming id ns ≡ none) × All (Omits id) ns)
      ⊎ ((info : NodeInfo) × (incoming id ns ≡ some info) × Reports id ns info)
unfolding incoming
incoming-Reports id [] = inl (refl, _)
incoming-Reports id (none ∷ ns) = elim (incoming-Reports id ns) [
  | inl (e, omits) ↦ inl (e, (_, omits))
  | inr (info, e, (before, after, parts, same, omits)) ↦
      inr (info, e, (none ∷ before, after, ap (λ l. none ∷ l) parts, same, omits))
]
incoming-Reports id (some n ∷ ns) = elim (incoming-Reports id ns) [
  | inl (e, omits) ↦ elim (Bool-cases (text_eq n.node_id id)) [
    | inl t ↦ inr (n, rw (e, t) refl, ([], ns, refl, text_eq_sound n.node_id id t, omits))
    | inr t ↦ inl (rw (e, t) refl, (t, omits))
  ]
  | inr (info, e, (before, after, parts, same, omits)) ↦
      inr (info, rw e refl, (some n ∷ before, after, ap (λ l. some n ∷ l) parts, same, omits))
]

known-update_node_health :
    (id : Text) (ns : List (Option NodeInfo)) (h : Hrw) (n : Node)
    → get_node_by_id id h ≡ some n
    → get_node_by_id id (update_node_health_from_proto ns h) ≡ some (refreshed n (incoming id ns))
unfolding get_node_by_id update_node_health_from_proto
known-update_node_health id ns h n e =
    let (extra, p) = append_all_extends (seen ns h.nodes) ns (refresh ns h.nodes) in
    rw p (find_node-append id (refresh ns h.nodes) extra _ (find_node-refresh id ns h.nodes n e))

-- A node that was known keeps its id. Where the update has entries about it, it takes the address,
-- the weight and the health of the last one; where it has none, it keeps its address and weight and
-- is unhealthy.
pub get_node_by_id-update_node_health :
    (id : Text) (ns : List (Option NodeInfo)) (h : Hrw) (n : Node)
    → get_node_by_id id h ≡ some n
    → ((before after : List (Option NodeInfo)) × (info : NodeInfo) × (ns
          ≡ before ++ some info ∷ after)
        × (info.node_id ≡ id)
        × All (Omits id) after
        × (get_node_by_id id (update_node_health_from_proto ns h)
            ≡ some (record {
              id = n.id;
              address = info.address;
              weight = info.weight;
              healthy = info.healthy;
            })))
      ⊎ (All (Omits id) ns
          × (get_node_by_id id (update_node_health_from_proto ns h)
              ≡ some
                  (record { id = n.id; address = n.address; weight = n.weight; healthy = false })))
get_node_by_id-update_node_health id ns h n e =
    let known = known-update_node_health id ns h n e in
    elim (incoming-Reports id ns) [
      | inl (none_in, omits) ↦ inr (omits, known ∙ ap (λ o. some (refreshed n o)) none_in)
      | inr (info, last, (before, after, parts, same, omits)) ↦
          inl (before, after, info, parts, same, omits, known ∙ ap (λ o. some (refreshed n o)) last)
    ]
