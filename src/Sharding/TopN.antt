-- ===== src/Sharding/TopN.antt =====
-- GetNodes of internal/sharding/hrw.go: the healthy nodes with the highest scores. Its `sort.Slice`
-- is not stable and leaves the order of equal scores open, so the sort is a parameter with the two
-- facts that Go documents. A negative `n` panics in the source and is no value here.
use monofs.Prelude.{
  ℕ, zero, suc, ◌≤◌, ◌≡◌, refl, ap, subst, ◌∙◌, inl, inr, List, [], ◌∷◌, ◌++◌, All, map, length,
  take, drop, arith, Bool-cases, filter, Text, if◌then◌else◌, take-append-drop,
}
use Prim.Native.Nat.{min}
use mathlib.Core.List.{Permᴰ}
use mathlib.Core.List.Permᴰ
use monofs.Sharding.{Node, Hrw, compute_score, count_healthy, healthy_node_count, get_healthy_nodes}

pub record Scored : Type 0 where
  pub node : Node
  pub score : ℕ  -- uint64

-- `candidates[i].score > candidates[j].score` never holds for a j before i.
abbrev pub Descending : List Scored → Type 0
Descending [] = Unit
Descending (c ∷ cs) = All (λ d. d.score ≤ c.score) cs × Descending cs

-- `sort.Slice` by descending score.
pub record SliceSort : Type 0 where
  pub sort : List Scored → List Scored
  pub sort-perm : (cs : List Scored) → Permᴰ (sort cs) cs
  pub sort-Descending : (cs : List Scored) → Descending (sort cs)

unfoldable pub candidates : (Node → ℕ) → List Node → List Scored
candidates score [] = []
candidates score (n ∷ ns) =
    let rest = candidates score ns in
    if n.healthy then record { node = n; score = score n } ∷ rest else rest

module _ (s : SliceSort) where
  unfoldable pub get_nodes : Text → ℕ → Hrw → List Node
  unfolding candidates
  get_nodes key n h =
      map (λ (c : Scored). c.node) (take n (s.sort (candidates (compute_score key) h.nodes)))

  -- The candidates that are cut off.
  unfoldable pub dropped_nodes : Text → ℕ → Hrw → List Node
  unfolding candidates
  dropped_nodes key n h =
      map (λ (c : Scored). c.node) (drop n (s.sort (candidates (compute_score key) h.nodes)))

length-perm {ℓ} : {A : Type ℓ} {xs ys : List A} → Permᴰ xs ys → length xs ≡ length ys
length-perm Permᴰ.nil = refl
length-perm (Permᴰ.cons e p) = ap suc (length-perm p)
length-perm (Permᴰ.swap e e') = refl
length-perm (Permᴰ.trans p q) = length-perm p ∙ length-perm q

pub All-perm {ℓ κ} :
    {A : Type ℓ} (P : A → Type κ) {xs ys : List A} → Permᴰ xs ys → All P xs → All P ys
All-perm P Permᴰ.nil h = h
All-perm P (Permᴰ.cons e p) h = (subst P e h.0, All-perm P p h.1)
All-perm P (Permᴰ.swap e e') h = (subst P e' h.1.0, (subst P e h.0, h.1.1))
All-perm P (Permᴰ.trans p q) h = All-perm P q (All-perm P p h)

length-candidates :
    (score : Node → ℕ) (ns : List Node) → length (candidates score ns) ≡ count_healthy ns
unfolding candidates count_healthy
length-candidates score [] = refl
length-candidates score (n ∷ ns) = ground (arith, length-candidates score ns)

length-map-take :
    (n : ℕ) (cs : List Scored)
    → length (map (λ (c : Scored). c.node) (take n cs)) ≡ min n (length cs)
length-map-take zero cs = omega arith
length-map-take (suc n) [] = omega arith
length-map-take (suc n) (c ∷ cs) = omega (arith, length-map-take n cs)

-- GetNodes returns as many nodes as were asked for, or all the healthy ones where there are fewer.
pub length-get_nodes :
    (s : SliceSort) (key : Text) (n : ℕ) (h : Hrw)
    → length (get_nodes s key n h) ≡ min n (healthy_node_count h)
unfolding get_nodes healthy_node_count
length-get_nodes s key n h =
    length-map-take n (s.sort (candidates (compute_score key) h.nodes))
    ∙ ap (min n) (
        length-perm (s.sort-perm (candidates (compute_score key) h.nodes))
        ∙ length-candidates (compute_score key) h.nodes)

map-perm {ℓ κ} :
    {A : Type ℓ} {B : Type κ} (f : A → B) {xs ys : List A}
    → Permᴰ xs ys
    → Permᴰ (map f xs) (map f ys)
map-perm f Permᴰ.nil = Permᴰ.nil
map-perm f (Permᴰ.cons e p) = Permᴰ.cons (ap f e) (map-perm f p)
map-perm f (Permᴰ.swap e e') = Permᴰ.swap (ap f e) (ap f e')
map-perm f (Permᴰ.trans p q) = Permᴰ.trans (map-perm f p) (map-perm f q)

map-candidates :
    (score : Node → ℕ) (ns : List Node)
    → map (λ (c : Scored). c.node) (candidates score ns) ≡ filter (λ (n : Node). n.healthy) ns
unfolding candidates
map-candidates score [] = refl
map-candidates score (n ∷ ns) = elim (Bool-cases n.healthy) [
  | inl e ↦ simp e (ap (λ l. n ∷ l) (map-candidates score ns))
  | inr e ↦ simp e (map-candidates score ns)
]

-- Every candidate carries the score of its node.
abbrev pub Scores : (Node → ℕ) → Scored → Type 0
Scores score c = c.score ≡ score c.node

All-drop {ℓ κ} : {A : Type ℓ} (P : A → Type κ) (n : ℕ) (xs : List A) → All P xs → All P (drop n xs)
All-drop P zero xs h = h
All-drop P (suc n) [] h = tt
All-drop P (suc n) (x ∷ xs) h = All-drop P n xs h.1

Descending-cut :
    (n : ℕ) (cs : List Scored)
    → Descending cs
    → All (λ c. All (λ d. d.score ≤ c.score) (drop n cs)) (take n cs)
Descending-cut zero cs h = tt
Descending-cut (suc n) [] h = tt
Descending-cut (suc n) (c ∷ cs) h =
    (All-drop (λ d. d.score ≤ c.score) n cs h.0, Descending-cut n cs h.1)

All-take {ℓ κ} : {A : Type ℓ} (P : A → Type κ) (n : ℕ) (xs : List A) → All P xs → All P (take n xs)
All-take P zero xs h = tt
All-take P (suc n) [] h = tt
All-take P (suc n) (x ∷ xs) h = (h.0, All-take P n xs h.1)

pub candidates-Scores :
    (score : Node → ℕ) (ns : List Node) → All (Scores score) (candidates score ns)
unfolding candidates
candidates-Scores score [] = tt
candidates-Scores score (n ∷ ns) = elim (Bool-cases n.healthy) [
  | inl e ↦ simp e (refl, candidates-Scores score ns)
  | inr e ↦ simp e (candidates-Scores score ns)
]

module _ (score : Node → ℕ) where
  below_node :
      (c : Scored) (ds : List Scored)
      → Scores score c
      → All (Scores score) ds
      → All (λ d. d.score ≤ c.score) ds
      → All (λ m. score m ≤ score c.node) (map (λ (d : Scored). d.node) ds)
  below_node c [] e hs h = tt
  below_node c (d ∷ ds) e hs h = (omega (arith, e, hs.0, h.0), below_node c ds e hs.1 h.1)

  below_nodes :
      (cs ds : List Scored)
      → All (Scores score) cs
      → All (Scores score) ds
      → All (λ c. All (λ d. d.score ≤ c.score) ds) cs
      → All
          (λ r. All (λ m. score m ≤ score r) (map (λ (d : Scored). d.node) ds))
          (map (λ (c : Scored). c.node) cs)
  below_nodes [] ds es hs h = tt
  below_nodes (c ∷ cs) ds es hs h = (below_node c ds es.0 hs h.0, below_nodes cs ds es.1 hs h.1)

map_append {ℓ κ} :
    {A : Type ℓ} {B : Type κ} (f : A → B) (xs ys : List A) → map f xs ++ map f ys ≡ map f (xs ++ ys)
map_append f [] ys = refl
map_append f (x ∷ xs) ys = ap (λ l. f x ∷ l) (map_append f xs ys)

-- The nodes that GetNodes returns, together with those that it drops, are the healthy nodes, each as
-- often as it is in the list; and no dropped node has a higher score than a returned one.
pub get_nodes_top :
    (s : SliceSort) (key : Text) (n : ℕ) (h : Hrw)
    → Permᴰ (get_nodes s key n h ++ dropped_nodes s key n h) (get_healthy_nodes h)
      × All
          (λ r. All (λ d. compute_score key d ≤ compute_score key r) (dropped_nodes s key n h))
          (get_nodes s key n h)
unfolding get_nodes dropped_nodes get_healthy_nodes
get_nodes_top s key n h =
    let score = compute_score key in
    let cs = candidates score h.nodes in
    let sorted = s.sort cs in
    let labelled : All (Scores score) sorted =
      All-perm (Scores score) (Permᴰ.symm (s.sort-perm cs)) (candidates-Scores score h.nodes) in
    (
      subst
          (λ l.
            Permᴰ
              (map (λ (c : Scored). c.node) (take n sorted)
                ++ map (λ (c : Scored). c.node) (drop n sorted))
              l)
          (map-candidates score h.nodes)
          (rw
            (
              map_append (λ (c : Scored). c.node) (take n sorted) (drop n sorted),
              take-append-drop n sorted,
            )
            (map-perm (λ (c : Scored). c.node) (s.sort-perm cs))),
      below_nodes score (take n sorted) (drop n sorted) (All-take (Scores score) n sorted labelled)
          (All-drop (Scores score) n sorted labelled)
          (Descending-cut n sorted (s.sort-Descending cs)),
    )
