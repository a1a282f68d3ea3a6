-- ===== src/Sharding/InsertionSort.antt =====
-- A sort that meets what `SliceSort` asks of Go's sort.Slice in internal/sharding/hrw.go.
use monofs.Prelude.{
  ℕ, ◌≤◌, refl, inl, inr, List, [], ◌∷◌, All, arith, ltb, Bool-cases, if◌then◌else◌,
}
use mathlib.Core.List.{Permᴰ}
use mathlib.Core.List.Permᴰ
use monofs.Sharding.TopN.{Scored, Descending, SliceSort, All-perm}

insert_score : Scored → List Scored → List Scored
insert_score c [] = c ∷ []
insert_score c (d ∷ ds) =
    let rest = insert_score c ds in if ltb d.score c.score then c ∷ d ∷ ds else d ∷ rest

unfoldable pub sort_scores : List Scored → List Scored
unfolding insert_score
sort_scores [] = []
sort_scores (c ∷ cs) = insert_score c (sort_scores cs)

insert_score-perm : (c : Scored) (ds : List Scored) → Permᴰ (insert_score c ds) (c ∷ ds)
unfolding insert_score
insert_score-perm c [] = Permᴰ.refl (c ∷ [])
insert_score-perm c (d ∷ ds) = elim (Bool-cases (ltb d.score c.score)) [
  | inl e ↦ rw e (Permᴰ.refl (c ∷ d ∷ ds))
  | inr e ↦ rw e (Permᴰ.trans (Permᴰ.cons refl (insert_score-perm c ds)) (Permᴰ.swap refl refl))
]

pub sort_scores-perm : (cs : List Scored) → Permᴰ (sort_scores cs) cs
unfolding sort_scores
sort_scores-perm [] = Permᴰ.nil
sort_scores-perm (c ∷ cs) =
    Permᴰ.trans (insert_score-perm c (sort_scores cs)) (Permᴰ.cons refl (sort_scores-perm cs))

All-le :
    (a b : ℕ) (ds : List Scored) → a ≤ b → All (λ d. d.score ≤ a) ds → All (λ d. d.score ≤ b) ds
All-le a b [] le h = tt
All-le a b (d ∷ ds) le h = (omega (arith, h.0), All-le a b ds le h.1)

insert_score-Descending :
    (c : Scored) (ds : List Scored) → Descending ds → Descending (insert_score c ds)
unfolding insert_score
insert_score-Descending c [] h = (tt, tt)
insert_score-Descending c (d ∷ ds) h = elim (Bool-cases (ltb d.score c.score)) [
  | inl e ↦
      let le : d.score ≤ c.score = ground arith in rw e ((le, All-le d.score c.score ds le h.0), h)
  | inr e ↦
      let le : c.score ≤ d.score = ground arith in
      rw e (
        All-perm (λ x. x.score ≤ d.score) (Permᴰ.symm (insert_score-perm c ds)) (le, h.0),
        insert_score-Descending c ds h.1,
      )
]

pub sort_scores-Descending : (cs : List Scored) → Descending (sort_scores cs)
unfolding sort_scores
sort_scores-Descending [] = tt
sort_scores-Descending (c ∷ cs) =
    insert_score-Descending c (sort_scores cs) (sort_scores-Descending cs)

abbrev pub insertion_sort : SliceSort
insertion_sort = record {
  sort = sort_scores;
  sort-perm = sort_scores-perm;
  sort-Descending = sort_scores-Descending;
}
