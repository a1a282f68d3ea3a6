-- ===== src/Merge3/Symmetry.antt =====
-- Which side is called ours makes no difference to a merge without conflicts: internal/fuse/merge3.go.
use monofs.Prelude.{
  ℕ, zero, suc, ◌+◌, ◌-◌, Option, none, some, List, [], ◌∷◌, ◌++◌, map, length, ltb, if◌then◌else◌,
  Bool-cases, Text, ◌≡◌, refl, sym, ap, ap₂, subst, ◌∙◌, inl, inr, arith,
}
use monofs.Merge3.{
  Block, SyncRegion, max, min, block_end, common_start, common_end, region_of, add_region,
  left_ours, left_theirs, intersect, adjacent, extend, next_last, keep_last, coalesce_from,
  coalesce, sync_regions, equal_lines, merge_unsynced_region, merge_cuts, join_parts, merge_from,
  find_sync_regions, merge3_lines,
}
use monofs.Merge3.Lines.{equal_lines_sound, equal_lines_comm}

abbrev swap : SyncRegion → SyncRegion
swap r = record {
  base_start = r.base_start;
  base_end = r.base_end;
  ours_start = r.theirs_start;
  ours_end = r.theirs_end;
  theirs_start = r.ours_start;
  theirs_end = r.ours_end;
}

max_comm : (m n : ℕ) → max m n ≡ max n m
max_comm m n = ground arith

min_comm : (m n : ℕ) → min m n ≡ min n m
min_comm m n = ground arith

region_of-swap : (om tm : Block) → region_of tm om ≡ swap (region_of om tm)
region_of-swap om tm =
    ap₂
      (λ (from : ℕ) (to : ℕ). record {
        base_start = from;
        base_end = to;
        ours_start = tm.block_b + (from - tm.block_a);
        ours_end = tm.block_b + (to - tm.block_a);
        theirs_start = om.block_b + (from - om.block_a);
        theirs_end = om.block_b + (to - om.block_a);
      })
      (max_comm tm.block_a om.block_a) (min_comm (block_end tm) (block_end om))

add_region-swap :
    (om tm : Block) (rs : List SyncRegion)
    → add_region tm om (map swap rs) ≡ map swap (add_region om tm rs)
add_region-swap om tm rs =
    ap₂ (λ (from : ℕ) (to : ℕ). if ltb from to then region_of tm om ∷ map swap rs else map swap rs)
      (max_comm tm.block_a om.block_a) (min_comm (block_end tm) (block_end om))
    ∙ elim (Bool-cases (ltb (common_start om tm) (common_end om tm))) [
      | inl t ↦ rw t (ap (λ r. r ∷ map swap rs) (region_of-swap om tm))
      | inr f ↦ rw f refl
    ]

intersect-swap :
    (fuel : ℕ) (os ts : List Block) → intersect fuel ts os ≡ map swap (intersect fuel os ts)
unfolding intersect
intersect-swap zero os ts = refl
intersect-swap (suc fuel) [] [] = refl
intersect-swap (suc fuel) [] (tm ∷ ts) = refl
intersect-swap (suc fuel) (om ∷ os) [] = refl
intersect-swap (suc fuel) (om ∷ os) (tm ∷ ts) =
    ap (add_region tm om) (intersect-swap fuel (left_ours om tm os) (left_theirs om tm ts))
    ∙ add_region-swap om tm (intersect fuel (left_ours om tm os) (left_theirs om tm ts))

adjacent-swap : (last r : SyncRegion) → adjacent (swap last) (swap r) ≡ adjacent last r
adjacent-swap last r = ground arith

coalesce_from-swap :
    (last : SyncRegion) (rs : List SyncRegion)
    → coalesce_from (swap last) (map swap rs) ≡ map swap (coalesce_from last rs)
unfolding coalesce_from
coalesce_from-swap last [] = refl
coalesce_from-swap last (r ∷ rs) =
    ap
      (λ c.
        keep_last c (swap last) (coalesce_from (next_last c (swap last) (swap r)) (map swap rs)))
      (adjacent-swap last r)
    ∙ elim (Bool-cases (adjacent last r)) [
      | inl t ↦ rw t (coalesce_from-swap (extend last r) rs)
      | inr f ↦ rw f (ap (λ q. swap last ∷ q) (coalesce_from-swap r rs))
    ]

coalesce-swap : (rs : List SyncRegion) → coalesce (map swap rs) ≡ map swap (coalesce rs)
coalesce-swap [] = refl
coalesce-swap (r ∷ rs) = coalesce_from-swap r rs

sync_regions-swap : (os ts : List Block) → sync_regions ts os ≡ map swap (sync_regions os ts)
unfolding sync_regions
sync_regions-swap os ts =
    ap (λ n. coalesce (intersect n ts os))
      (let e : length ts + length os ≡ length os + length ts = omega arith in e)
    ∙ ap coalesce (intersect-swap (length os + length ts) os ts)
    ∙ coalesce-swap (intersect (length os + length ts) os ts)

-- As many conflicts, and the same lines where there are none.
abbrev pub Mirror : {A : Type 0} → Option (A × ℕ) → Option (A × ℕ) → Type 0
Mirror none none = Unit
Mirror none (some y) = ⊥
Mirror (some x) none = ⊥
Mirror (some (l, n)) (some (k, m)) = (n ≡ m) × (n ≡ 0 → l ≡ k)

unsynced-Mirror :
    (b o t : List Text)
    → Mirror (some (merge_unsynced_region b o t)) (some (merge_unsynced_region b t o))
unfolding merge_unsynced_region
unsynced-Mirror b o t = elim (Bool-cases (equal_lines b o)) [
  | inl x ↦ elim (Bool-cases (equal_lines b t)) [
    | inl y ↦ rw (x, y) (refl, λ z. refl)
    | inr y ↦ rw (x, y) (refl, λ z. refl)
  ]
  | inr x ↦ elim (Bool-cases (equal_lines b t)) [
    | inl y ↦ rw (x, y) (refl, λ z. refl)
    | inr y ↦ elim (Bool-cases (equal_lines o t)) [
      | inl w ↦
          let v = equal_lines_comm t o ∙ w in rw (x, y, w, v) (refl, λ z. equal_lines_sound o t w)
      | inr w ↦
          let v = equal_lines_comm t o ∙ w in rw (x, y, w, v) (refl, λ z. absurd (omega arith))
    ]
  ]
]

merge_cuts-Mirror : (b o t : Option (List Text)) → Mirror (merge_cuts b o t) (merge_cuts b t o)
merge_cuts-Mirror none o t = _
merge_cuts-Mirror (some b) none none = _
merge_cuts-Mirror (some b) none (some t) = _
merge_cuts-Mirror (some b) (some o) none = _
merge_cuts-Mirror (some b) (some o) (some t) = unsynced-Mirror b o t

join_parts-Mirror :
    (x x' : Option (List Text × ℕ)) (s : Option (List Text)) (y y' : Option (List Text × ℕ))
    → Mirror x x'
    → Mirror y y'
    → Mirror (join_parts x s y) (join_parts x' s y')
join_parts-Mirror none none s y y' h k = _
join_parts-Mirror none (some x') s y y' h k = absurd h
join_parts-Mirror (some x) none s y y' h k = absurd h
join_parts-Mirror (some (u, n)) (some (u', n')) none y y' h k = _
join_parts-Mirror (some (u, n)) (some (u', n')) (some s) none none h k = _
join_parts-Mirror (some (u, n)) (some (u', n')) (some s) none (some y') h k = absurd k
join_parts-Mirror (some (u, n)) (some (u', n')) (some s) (some y) none h k = absurd k
join_parts-Mirror (some (u, n)) (some (u', n')) (some s) (some (l, m)) (some (l', m')) (e, h)
      (f, k) =
    (omega arith, λ z. ap₂ (λ a b. a ++ s ++ b) (h (omega arith)) (k (omega arith)))

merge_from-Mirror :
    (base ours theirs : List Text) (rs : List SyncRegion) (bp op tp : ℕ)
    → Mirror
        (merge_from base ours theirs rs bp op tp)
        (merge_from base theirs ours (map swap rs) bp tp op)
unfolding merge_from
merge_from-Mirror base ours theirs [] bp op tp = merge_cuts-Mirror _ _ _
merge_from-Mirror base ours theirs (r ∷ rs) bp op tp =
    join_parts-Mirror _ _ _ _ _ (merge_cuts-Mirror _ _ _)
      (merge_from-Mirror base ours theirs rs r.base_end r.ours_end r.theirs_end)

-- Merging theirs into ours and ours into theirs end alike: both out of bounds, or both with as many
-- conflicts, and with the same lines where there is no conflict, whatever blocks difflib returns.
pub merge3_lines-Mirror :
    (matching_blocks : List Text → List Text → List Block) (base ours theirs : List Text)
    → Mirror
        (merge3_lines matching_blocks base ours theirs)
        (merge3_lines matching_blocks base theirs ours)
unfolding merge3_lines find_sync_regions
merge3_lines-Mirror matching_blocks base ours theirs =
    subst
      (λ rs.
        Mirror (merge3_lines matching_blocks base ours theirs)
          (merge_from base theirs ours rs 0 0 0))
      (sym (sync_regions-swap (matching_blocks base ours) (matching_blocks base theirs)))
      (merge_from-Mirror base ours theirs
        (sync_regions (matching_blocks base ours) (matching_blocks base theirs)) 0 0 0)
