-- ===== src/Sharding/Stability.antt =====
-- Rendezvous hashing moves few keys: what happens to the choice of GetNode of
-- internal/sharding/hrw.go when nodes leave, fail or join.
use monofs.Prelude.{
  ℕ, ◌*◌, ◌%◌, ◌^◌, ◌<◌, ◌≤◌, ◌≡◌, ◌≢◌, refl, ap, sym, ◌∙◌, ◌⊎◌, inl, inr, Bool, true, false, some,
  List, [], ◌∷◌, ◌++◌, All, filter, arith, Bool-cases, Text, text_eq, text_eq_sound,
}
use Prim.Native.Nat.{bit_xor}
use monofs.Sharding.Fnv.{fnv64a, fnv_from}
use monofs.Sharding.{Node, Hrw, compute_score, get_node, update_nodes, set_health, set_node_health}
use monofs.Sharding.Best.{IsBest, AtMost, get_node-IsBest}

module _ (score : Node → ℕ) where
  All-filter :
      (keep : Node → Bool) (b : Node) (ms : List Node)
      → All (AtMost score b) ms
      → All (AtMost score b) (filter keep ms)
  All-filter keep b [] h = tt
  All-filter keep b (m ∷ ms) h = elim (Bool-cases (keep m)) [
    | inl e ↦ rw e (h.0, All-filter keep b ms h.1)
    | inr e ↦ rw e (All-filter keep b ms h.1)
  ]

  -- The best node stays best when other nodes are taken out.
  IsBest-filter :
      (keep : Node → Bool) (n : Node) (ms : List Node)
      → keep n ≡ true
      → IsBest score n ms
      → IsBest score n (filter keep ms)
  IsBest-filter keep n [] k best = best
  IsBest-filter keep n (m ∷ ms) k (inl (e, live, rest)) =
      rw (ap keep e ∙ k) (inl (e, live, All-filter keep m ms rest))
  IsBest-filter keep n (m ∷ ms) k (inr (below, best)) = elim (Bool-cases (keep m)) [
    | inl e ↦ rw e (inr (below, IsBest-filter keep n ms k best))
    | inr e ↦ rw e (IsBest-filter keep n ms k best)
  ]

  -- A node that is best in a longer list is the node that joined, or was best before.
  IsBest-append :
      (n x : Node) (ms : List Node) → IsBest score n (ms ++ x ∷ []) → (n ≡ x) ⊎ IsBest score n ms
  IsBest-append n x [] (inl (e, live, rest)) = inl (sym e)
  IsBest-append n x [] (inr (below, best)) = absurd best
  IsBest-append n x (m ∷ ms) (inl (e, live, rest)) = inr (inl (e, live, All-init m ms rest))
    where
      All-init :
          (b : Node) (ys : List Node)
          → All (AtMost score b) (ys ++ x ∷ [])
          → All (AtMost score b) ys
      All-init b [] h = tt
      All-init b (y ∷ ys) h = (h.0, All-init b ys h.1)
  IsBest-append n x (m ∷ ms) (inr (below, best)) = elim (IsBest-append n x ms best) [
    | inl e ↦ inl e
    | inr old ↦ inr (inr (below, old))
  ]

-- A key stays on its node when any other nodes are removed: GetNode of the list that `keep` leaves
-- returns the same node, if `keep` leaves that node.
pub get_node-remove :
    (key : Text) (h : Hrw) (keep : Node → Bool) (n : Node)
    → get_node key h ≡ some n
    → keep n ≡ true
    → get_node key (update_nodes (filter keep h.nodes) h) ≡ some n
unfolding update_nodes
get_node-remove key h keep n chosen kept =
    (get_node-IsBest key (record h { nodes = filter keep h.nodes }) n).1
      (IsBest-filter (compute_score key) keep n h.nodes kept ((get_node-IsBest key h n).0 chosen))

-- A key moves only to the node that joins: with a node `x` added at the end, GetNode returns `x`, or
-- what it returned before.
pub get_node-add :
    (key : Text) (h : Hrw) (x n : Node)
    → get_node key (update_nodes (h.nodes ++ x ∷ []) h) ≡ some n
    → (n ≡ x) ⊎ (get_node key h ≡ some n)
unfolding update_nodes
get_node-add key h x n chosen =
    elim (IsBest-append (compute_score key) n x h.nodes
      ((get_node-IsBest key (record h { nodes = h.nodes ++ x ∷ [] }) n).0 chosen)) [
        | inl e ↦ inl e
        | inr old ↦ inr ((get_node-IsBest key h n).1 old)
      ]

module _ (score : Node → ℕ) (id : Text) where
  All-set_health :
      (b : Node) (ms : List Node)
      → All (AtMost score b) ms
      → All (AtMost score b) (set_health id false ms).0
  unfolding set_health
  All-set_health b [] h = tt
  All-set_health b (m ∷ ms) h = elim (Bool-cases (text_eq m.id id)) [
    | inl e ↦ rw e (inl refl, h.1)
    | inr e ↦ rw e (h.0, All-set_health b ms h.1)
  ]

  IsBest-set_health :
      (n : Node) (ms : List Node)
      → text_eq n.id id ≡ false
      → IsBest score n ms
      → IsBest score n (set_health id false ms).0
  unfolding set_health
  IsBest-set_health n [] other best = best
  IsBest-set_health n (m ∷ ms) other (inl (e, live, rest)) =
      rw (ap (λ (x : Node). text_eq x.id id) e ∙ other) (inl (e, live, All-set_health m ms rest))
  IsBest-set_health n (m ∷ ms) other (inr (below, best)) = elim (Bool-cases (text_eq m.id id)) [
    | inl e ↦ rw e (inr (inl refl, best))
    | inr e ↦ rw e (inr (below, IsBest-set_health n ms other best))
  ]

other_id : (s t : Text) → s ≢ t → text_eq s t ≡ false
other_id s t ne = elim (Bool-cases (text_eq s t)) [
  | inl e ↦ absurd (ne (text_eq_sound s t e))
  | inr e ↦ e
]

-- A key stays on its node when a node with another id is marked unhealthy by SetNodeHealth.
pub get_node-set_node_health :
    (key : Text) (h : Hrw) (n : Node) (id : Text)
    → get_node key h ≡ some n
    → n.id ≢ id
    → get_node key (set_node_health id false h).0 ≡ some n
unfolding set_node_health
get_node-set_node_health key h n id chosen other =
    (get_node-IsBest key (record h { nodes = (set_health id false h.nodes).0 }) n).1 (
      IsBest-set_health (compute_score key) id n h.nodes (other_id n.id id other)
        ((get_node-IsBest key h n).0 chosen))

fnv_from-lt : (h : ℕ) (bs : List ℕ) → h < 2 ^ 64 → fnv_from h bs < 2 ^ 64
unfolding fnv_from
fnv_from-lt h [] lt = lt
fnv_from-lt h (b ∷ bs) lt = fnv_from-lt (bit_xor h b * 1099511628211 % 2 ^ 64) bs (omega arith)

fnv64a-lt : (bs : List ℕ) → fnv64a bs < 2 ^ 64
unfolding fnv64a
fnv64a-lt bs = fnv_from-lt _ bs (omega arith)

-- The product of hash and weight wraps around, it does not saturate: for every key whose hash with
-- the node's id is 2 ^ 63 or more, weight 2 gives the node a lower score than weight 1.
pub compute_score_wraps :
    (key : Text) (n : Node)
    → 2 ^ 63 ≤ fnv64a (key ++ n.id)
    → compute_score key (record n { weight = 2 }) < compute_score key (record n { weight = 1 })
unfolding compute_score
compute_score_wraps key n big = omega (arith, fnv64a-lt (key ++ n.id))
