-- ===== src/Sharding/Best.antt =====
-- What GetNode of internal/sharding/hrw.go chooses: the first of the healthy nodes with the highest
-- score.
use monofs.Prelude.{
  ℕ, ◌<◌, ◌≤◌, ◌≡◌, refl, ◌⊎◌, inl, inr, ◌↔◌, true, false, Option, none, some, List, [], ◌∷◌, All,
  arith, subst, sym, ap, ◌∙◌, Text,
}
use monofs.Sharding.{Node, Hrw, compute_score, consider, best_from, get_node}

module _ (score : Node → ℕ) where
  -- `n` may not be passed over for `m`, which stands behind it.
  abbrev pub AtMost : Node → Node → Type 0
  AtMost n m = (m.healthy ≡ false) ⊎ (score m ≤ score n)

  -- `n` is taken although `m` stands before it.
  abbrev pub Below : Node → Node → Type 0
  Below n m = (m.healthy ≡ false) ⊎ (score m < score n)

  -- `n` is healthy, stands in the list, scores above every healthy node before it and not below any
  -- healthy node behind it.
  abbrev pub IsBest : Node → List Node → Type 0
  IsBest n [] = ⊥
  IsBest n (m ∷ ms) = ((m ≡ n) × (m.healthy ≡ true) × All (AtMost m) ms) ⊎ (Below n m × IsBest n ms)

  consider-cases :
      (m b : Node)
      → ((consider score m (some b) ≡ some m) × (m.healthy ≡ true) × (score b < score m))
        ⊎ ((consider score m (some b) ≡ some b) × AtMost b m)
  unfolding consider
  consider-cases m b = ground arith

  -- What the loop says of its result, with the choice `b` at hand.
  abbrev Kept : Node → Node → List Node → Type 0
  Kept b n ms = ((b ≡ n) × All (AtMost b) ms) ⊎ (IsBest n ms × (score b < score n))

  Kept-new :
      (b m n : Node) (ms : List Node)
      → m.healthy ≡ true
      → score b < score m
      → Kept m n ms
      → Kept b n (m ∷ ms)
  Kept-new b m n ms live above (inl (e, rest)) =
      inr (inl (e, live, rest), subst (λ x. score b < score x) e above)
  Kept-new b m n ms live above (inr (best, lt)) = inr (inr (inr lt, best), omega arith)

  Below-of_AtMost : (b m n : Node) → AtMost b m → score b < score n → Below n m
  Below-of_AtMost b m n (inl sick) lt = inl sick
  Below-of_AtMost b m n (inr le) lt = inr (omega arith)

  Kept-old : (b m n : Node) (ms : List Node) → AtMost b m → Kept b n ms → Kept b n (m ∷ ms)
  Kept-old b m n ms le (inl (e, rest)) = inl (e, (le, rest))
  Kept-old b m n ms le (inr (best, lt)) = inr (inr (Below-of_AtMost b m n le lt, best), lt)

  -- With a choice at hand the loop keeps it, or goes to a better node; it always has a result.
  loop_sound :
      (b : Node) (ms : List Node)
      → (n : Node) × (best_from score (some b) ms ≡ some n) × Kept b n ms
  unfolding best_from
  loop_sound b [] = (b, refl, inl (refl, tt))
  loop_sound b (m ∷ ms) = elim (consider-cases m b) [
    | inl (e, live, above) ↦
        let (n, p, k) = loop_sound m ms in (n, rw e p, Kept-new b m n ms live above k)
    | inr (e, le) ↦ let (n, p, k) = loop_sound b ms in (n, rw e p, Kept-old b m n ms le k)
  ]

  -- No node of the list is healthy.
  abbrev pub AllSick : List Node → Type 0
  AllSick ms = All (λ m. m.healthy ≡ false) ms

  IsBest-of_Kept :
      (m n : Node) (ms : List Node) → m.healthy ≡ true → Kept m n ms → IsBest n (m ∷ ms)
  IsBest-of_Kept m n ms live (inl (e, rest)) = inl (e, live, rest)
  IsBest-of_Kept m n ms live (inr (best, lt)) = inr (inr lt, best)

  abbrev Choice : List Node → Option Node → Type 0
  Choice ms none = AllSick ms
  Choice ms (some n) = IsBest n ms

  Choice-behind :
      (m : Node) (ms : List Node) (o : Option Node)
      → m.healthy ≡ false
      → Choice ms o
      → Choice (m ∷ ms) o
  Choice-behind m ms none sick c = (sick, c)
  Choice-behind m ms (some n) sick c = inr (inl sick, c)

  consider_first :
      (m : Node)
      → ((consider score m none ≡ some m) × (m.healthy ≡ true))
        ⊎ ((consider score m none ≡ none) × (m.healthy ≡ false))
  unfolding consider
  consider_first m = ground arith

  -- The whole loop chooses the best node, and nothing only where no node is healthy.
  pub best_from_sound : (ms : List Node) → Choice ms (best_from score none ms)
  unfolding best_from
  best_from_sound [] = tt
  best_from_sound (m ∷ ms) = elim (consider_first m) [
    | inl (e, live) ↦
        let (n, p, k) = loop_sound m ms in
        subst (Choice (m ∷ ms)) (sym (ap (λ o. best_from score o ms) e ∙ p))
          (IsBest-of_Kept m n ms live k)
    | inr (e, sick) ↦
        subst (Choice (m ∷ ms)) (ap (λ o. best_from score o ms) (sym e))
          (Choice-behind m ms _ sick (best_from_sound ms))
  ]

  at_most :
      (s : ℕ) (n : Node) (ms : List Node)
      → All (λ m. (m.healthy ≡ false) ⊎ (score m ≤ s)) ms
      → IsBest n ms
      → score n ≤ s
  at_most s n [] h best = absurd best
  at_most s n (m ∷ ms) h (inl (e, live, rest)) = ground arith
  at_most s n (m ∷ ms) h (inr (below, best)) = at_most s n ms h.1 best

  above : (n m : Node) (ms : List Node) → Below n m → m.healthy ≡ true → score m < score n
  above n m ms (inl sick) live = absurd (ground arith)
  above n m ms (inr lt) live = lt

  -- There is one best node at most.
  pub IsBest-unique : (a b : Node) (ms : List Node) → IsBest a ms → IsBest b ms → a ≡ b
  IsBest-unique a b [] p q = absurd p
  IsBest-unique a b (m ∷ ms) (inl (e, live, rest)) (inl (e', live', rest')) = sym e ∙ e'
  IsBest-unique a b (m ∷ ms) (inl (e, live, rest)) (inr (below, best)) =
      absurd (omega (arith, above b m ms below live, at_most (score m) b ms rest best))
  IsBest-unique a b (m ∷ ms) (inr (below, best)) (inl (e, live, rest)) =
      absurd (omega (arith, above a m ms below live, at_most (score m) a ms rest best))
  IsBest-unique a b (m ∷ ms) (inr (_, best)) (inr (_, best')) = IsBest-unique a b ms best best'

  no-IsBest : (n : Node) (ms : List Node) → AllSick ms → ¬ IsBest n ms
  no-IsBest n [] h best = best
  no-IsBest n (m ∷ ms) h (inl (e, live, rest)) = ground arith
  no-IsBest n (m ∷ ms) h (inr (_, best)) = no-IsBest n ms h.1 best

  Choice-complete :
      (n : Node) (ms : List Node) (o : Option Node) → Choice ms o → IsBest n ms → o ≡ some n
  Choice-complete n ms none sick best = absurd (no-IsBest n ms sick best)
  Choice-complete n ms (some m) c best = ap some (IsBest-unique m n ms c best)

  -- A node that is best is the node that the loop returns.
  pub best_from_complete :
      (n : Node) (ms : List Node) → IsBest n ms → best_from score none ms ≡ some n
  best_from_complete n ms best = Choice-complete n ms _ (best_from_sound ms) best

  pub best_from_iff : (n : Node) (ms : List Node) → (best_from score none ms ≡ some n) ↔ IsBest n ms
  best_from_iff n ms = (λ e. subst (Choice ms) e (best_from_sound ms), best_from_complete n ms)

-- GetNode returns a node exactly where that node is healthy, scores above all healthy nodes before it
-- in the list, and not below any healthy node behind it.
pub get_node-IsBest :
    (key : Text) (h : Hrw) (n : Node)
    → (get_node key h ≡ some n) ↔ IsBest (compute_score key) n h.nodes
unfolding get_node
get_node-IsBest key h n = best_from_iff (compute_score key) n h.nodes

none_of_sick :
    (score : Node → ℕ) (ms : List Node) (o : Option Node)
    → Choice score ms o
    → AllSick score ms
    → o ≡ none
none_of_sick score ms none c sick = refl
none_of_sick score ms (some n) c sick = absurd (no-IsBest score n ms sick c)

-- GetNode returns nil exactly where no node is healthy.
pub get_node-eq-none_iff :
    (key : Text) (h : Hrw) → (get_node key h ≡ none) ↔ All (λ n. n.healthy ≡ false) h.nodes
unfolding get_node
get_node-eq-none_iff key h = (
  λ e. subst (Choice (compute_score key) h.nodes) e (best_from_sound (compute_score key) h.nodes),
  none_of_sick (compute_score key) h.nodes _ (best_from_sound (compute_score key) h.nodes),
)
