-- ===== src/Sharding/Health/Named.antt =====
-- The nodes that UpdateNodeHealthFromProto of internal/sharding/hrw.go has in its list at the end, and
-- their order.
use monofs.Prelude.{
  ◌≡◌, refl, ap, ap₂, ◌∙◌, inl, inr, true, false, Option, none, some, List, [], ◌∷◌, ◌++◌, All, map,
  arith, Bool-cases, Text, text_eq, text_eq_refl, has_text,
}
use monofs.Sharding.{
  Node, Hrw, NodeInfo, to_node, incoming, refresh, saw, seen, has_node, append_new, append_all,
  update_node_health_from_proto,
}
use monofs.Sharding.Health.{
  has_node-append, has_node_last, has_node-refresh, append_new_extends, append_all_extends,
  id-refreshed,
}

-- Every id that the update names is known behind it.
abbrev Knows : List Node → Option NodeInfo → Type 0
Knows nodes none = Unit
Knows nodes (some info) = has_node info.node_id nodes ≡ true

abbrev Covers : List Text → List Node → Type 0
Covers known nodes = (t : Text) → has_text t known ≡ true → has_node t nodes ≡ true

has_node-extend :
    (id : Text) (xs ys : List Node) → has_node id xs ≡ true → has_node id (xs ++ ys) ≡ true
has_node-extend id xs ys h = rw (has_node-append id xs ys, h)

Covers-extend : (known : List Text) (xs ys : List Node) → Covers known xs → Covers known (xs ++ ys)
Covers-extend known xs ys c t h = has_node-extend t xs ys (c t h)

append_new-Knows :
    (known : List Text) (info : NodeInfo) (nodes : List Node)
    → Covers known nodes
    → has_node info.node_id (append_new known info nodes) ≡ true
unfolding has_node
append_new-Knows known info nodes c = elim (Bool-cases (has_text info.node_id known)) [
  | inl e ↦ rw e (c info.node_id e)
  | inr e ↦ elim (Bool-cases (has_node info.node_id nodes)) [
    | inl e' ↦ rw (e, e') e'
    | inr e' ↦
        rw (e, e')
          (ground
            (arith, has_node_last info.node_id nodes (to_node info), text_eq_refl info.node_id))
  ]
]

append_all-Knows :
    (known : List Text) (ns : List (Option NodeInfo)) (nodes : List Node)
    → Covers known nodes
    → All (Knows (append_all known ns nodes)) ns
unfolding append_all
append_all-Knows known [] nodes c = tt
append_all-Knows known (none ∷ ns) nodes c = (tt, append_all-Knows known ns nodes c)
append_all-Knows known (some info ∷ ns) nodes c =
    let (a, p) = append_new_extends known info nodes in
    let (b, q) = append_all_extends known ns (append_new known info nodes) in
    (
      rw q (
          has_node-extend info.node_id (append_new known info nodes) b
            (append_new-Knows known info nodes c)),
      append_all-Knows known ns (append_new known info nodes)
          (rw p (Covers-extend known nodes a c)),
    )

seen-Covers : (ns : List (Option NodeInfo)) (nodes : List Node) → Covers (seen ns nodes) nodes
unfolding seen has_text has_node
seen-Covers ns [] t h = absurd (ground arith)
seen-Covers ns (n ∷ nodes) t h = elim (Bool-cases (text_eq n.id t)) [
  | inl e ↦ rw e
  | inr e ↦ rw e (seen-Covers ns nodes t (seen_behind e (incoming n.id ns) h))
]
  where
    seen_behind :
        text_eq n.id t ≡ false
        → (o : Option NodeInfo) → has_text t (saw n.id o (seen ns nodes)) ≡ true
        → has_text t (seen ns nodes) ≡ true
    seen_behind ne none p = p
    seen_behind ne (some info) p = rw ne at p

-- Behind a health update, every node that the update names is in the list.
update_node_health-Knows :
    (ns : List (Option NodeInfo)) (h : Hrw)
    → All (Knows (update_node_health_from_proto ns h).nodes) ns
unfolding update_node_health_from_proto
update_node_health-Knows ns h =
    append_all-Knows (seen ns h.nodes) ns (refresh ns h.nodes)
      (λ t p. rw (has_node-refresh t ns h.nodes) (seen-Covers ns h.nodes t p))

map_id-append :
    (xs ys : List Node)
    → map (λ (n : Node). n.id) (xs ++ ys)
      ≡ map (λ (n : Node). n.id) xs ++ map (λ (n : Node). n.id) ys
map_id-append [] ys = refl
map_id-append (x ∷ xs) ys = ap (λ l. x.id ∷ l) (map_id-append xs ys)

map_id-refresh :
    (ns : List (Option NodeInfo)) (nodes : List Node)
    → map (λ (n : Node). n.id) (refresh ns nodes) ≡ map (λ (n : Node). n.id) nodes
unfolding refresh
map_id-refresh ns [] = refl
map_id-refresh ns (n ∷ nodes) =
    ap₂ (λ i l. i ∷ l) (id-refreshed n (incoming n.id ns)) (map_id-refresh ns nodes)

-- A health update keeps the known nodes in their places: the ids behind it are those before it, in
-- their order, with new ids at the end.
ids-update_node_health :
    (ns : List (Option NodeInfo)) (h : Hrw)
    → (new : List Text) × (map (λ (n : Node). n.id) (update_node_health_from_proto ns h).nodes
        ≡ map (λ (n : Node). n.id) h.nodes ++ new)
unfolding update_node_health_from_proto
ids-update_node_health ns h =
    let (extra, p) = append_all_extends (seen ns h.nodes) ns (refresh ns h.nodes) in
    (
      map (λ (n : Node). n.id) extra,
      ap (map (λ (n : Node). n.id)) p
          ∙ map_id-append (refresh ns h.nodes) extra
          ∙ ap (λ l. l ++ map (λ (n : Node). n.id) extra) (map_id-refresh ns h.nodes),
    )
