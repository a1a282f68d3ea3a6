-- ===== src/Sharding/Agreement.antt =====
-- GetNode and GetNodes of internal/sharding/hrw.go agree on the best score.
use monofs.Prelude.{
  ℕ, suc, ◌≤◌, ◌≡◌, ap, sym, ◌⊎◌, inl, inr, false, some, List, [], ◌∷◌, All, map, take, arith,
  Bool-cases, Text,
}
use mathlib.Core.List.{Permᴰ}
use mathlib.Core.List.Permᴰ
use monofs.Sharding.{Node, Hrw, compute_score, get_node}
use monofs.Sharding.Best.{IsBest, get_node-IsBest}
use monofs.Sharding.TopN.{
  Scored, Scores, SliceSort, Descending, candidates, candidates-Scores, get_nodes, All-perm,
}

module _ (score : Node → ℕ) where
  bounded :
      (s : ℕ) (ns : List Node)
      → All (λ m. (m.healthy ≡ false) ⊎ (score m ≤ s)) ns
      → All (λ c. c.score ≤ s) (candidates score ns)
  unfolding candidates
  bounded s [] h = tt
  bounded s (n ∷ ns) h = elim (Bool-cases n.healthy) [
    | inl e ↦ simp e (ground (arith, h.0), bounded s ns h.1)
    | inr e ↦ simp e (bounded s ns h.1)
  ]

  -- No candidate scores above the best node.
  best-above :
      (b : Node) (ns : List Node)
      → IsBest score b ns
      → All (λ c. c.score ≤ score b) (candidates score ns)
  unfolding candidates
  best-above b [] best = absurd best
  best-above b (n ∷ ns) (inl (e, live, rest)) =
      simp live (ground (arith, ap score e), bounded (score b) ns (rw (sym (ap score e)) rest))
  best-above b (n ∷ ns) (inr (below, best)) = elim (Bool-cases n.healthy) [
    | inl e ↦ simp e (ground (arith, below), best-above b ns best)
    | inr e ↦ simp e (best-above b ns best)
  ]

  -- The best node is a candidate.
  best-within :
      (b : Node) (s : ℕ) (ns : List Node)
      → IsBest score b ns
      → All (λ c. c.score ≤ s) (candidates score ns)
      → score b ≤ s
  unfolding candidates
  best-within b s [] best h = absurd best
  best-within b s (n ∷ ns) (inl (e, live, rest)) h = omega (arith, ap score e, (simp live at h).0)
  best-within b s (n ∷ ns) (inr (below, best)) h = elim (Bool-cases n.healthy) [
    | inl e ↦ best-within b s ns best (simp e at h).1
    | inr e ↦ best-within b s ns best (simp e at h)
  ]

  head_score :
      (b m : Node) (ms : List Node) (n : ℕ) (ns : List Node) (sorted : List Scored)
      → IsBest score b ns
      → Permᴰ sorted (candidates score ns)
      → Descending sorted
      → map (λ (c : Scored). c.node) (take (suc n) sorted) ≡ m ∷ ms
      → score m ≡ score b
  head_score b m ms n ns [] best p d e = cc
  head_score b m ms n ns (c ∷ cs) best p d e =
      let same : c.node ≡ m = cc e in
      let up = (All-perm (λ x. x.score ≤ score b) (Permᴰ.symm p) (best-above b ns best)).0 in
      let down =
        best-within b c.score ns best (All-perm (λ x. x.score ≤ c.score) p (omega arith, d.0)) in
      let mine = (All-perm (Scores score) (Permᴰ.symm p) (candidates-Scores score ns)).0 in
      omega (arith, up, down, mine, ap score same)

-- The first of several nodes that GetNodes returns has the score of the node that GetNode returns,
-- whatever the sort does with equal scores.
pub get_nodes-get_node :
    (s : SliceSort) (key : Text) (n : ℕ) (h : Hrw) (m b : Node) (ms : List Node)
    → get_nodes s key (suc n) h ≡ m ∷ ms
    → get_node key h ≡ some b
    → compute_score key m ≡ compute_score key b
unfolding get_nodes
get_nodes-get_node s key n h m b ms e chosen =
    head_score (compute_score key) b m ms n h.nodes
      (s.sort (candidates (compute_score key) h.nodes)) ((get_node-IsBest key h b).0 chosen)
      (s.sort-perm (candidates (compute_score key) h.nodes))
      (s.sort-Descending (candidates (compute_score key) h.nodes)) e
