-- ===== src/Merge3/Markers.antt =====
-- A merge with a conflict can be recognised by its markers: internal/fuse/merge3.go.
use monofs.Prelude.{
  ℕ, zero, suc, ◌<◌, true, Option, none, some, List, [], ◌∷◌, ◌++◌, append_assoc, Bool-cases, Text,
  codes, contains, contains-behind, contains-before, ◌≡◌, refl, sym, ap, subst, ◌∙◌, inl, inr,
  arith,
}
use monofs.Merge3.{
  Block, SyncRegion, equal_lines, merge_unsynced_region, merge_cuts, join_parts, merge_from,
  find_sync_regions, merge3_lines, bytes_of, split_lines, concat, merge3, has_conflict_markers,
}

abbrev start_marker : Text
start_marker = codes "<<<<<<< MONOFS-LOCAL"

-- Where there is a conflict there is the marker.
abbrev Marked : Option (List Text × ℕ) → Type 0
Marked none = Unit
Marked (some (ls, n)) = 0 < n → contains (concat ls) start_marker ≡ true

concat-append : (xs ys : List Text) → concat (xs ++ ys) ≡ concat xs ++ concat ys
unfolding concat
concat-append [] ys = refl
concat-append (x ∷ xs) ys =
    ap (λ l. x ++ l) (concat-append xs ys) ∙ sym (append_assoc x (concat xs) (concat ys))

unsynced-Marked : (b o t : List Text) → Marked (some (merge_unsynced_region b o t))
unfolding merge_unsynced_region concat contains
unsynced-Marked b o t = elim (Bool-cases (equal_lines b o)) [
  | inl x ↦ elim (Bool-cases (equal_lines b t)) [
    | inl y ↦ rw (x, y) (λ h. absurd (omega arith))
    | inr y ↦ rw (x, y) (λ h. absurd (omega arith))
  ]
  | inr x ↦ elim (Bool-cases (equal_lines b t)) [
    | inl y ↦ rw (x, y) (λ h. absurd (omega arith))
    | inr y ↦ elim (Bool-cases (equal_lines o t)) [
      | inl w ↦ rw (x, y, w) (λ h. absurd (omega arith))
      | inr w ↦ rw (x, y, w) (λ h. refl)
    ]
  ]
]

merge_cuts-Marked : (b o t : Option (List Text)) → Marked (merge_cuts b o t)
merge_cuts-Marked none o t = _
merge_cuts-Marked (some b) none t = _
merge_cuts-Marked (some b) (some o) none = _
merge_cuts-Marked (some b) (some o) (some t) = unsynced-Marked b o t

join_parts-Marked :
    (x : Option (List Text × ℕ)) (s : Option (List Text)) (y : Option (List Text × ℕ))
    → Marked x
    → Marked y
    → Marked (join_parts x s y)
join_parts-Marked none s y h k = _
join_parts-Marked (some (u, n)) none y h k = _
join_parts-Marked (some (u, n)) (some s) none h k = _
join_parts-Marked (some (u, zero)) (some s) (some (rest, m)) h k = λ z.
    subst (λ l. contains l start_marker ≡ true) (sym (concat-append (u ++ s) rest))
      (contains-behind (concat (u ++ s)) (concat rest) start_marker (k (omega arith)))
join_parts-Marked (some (u, suc n)) (some s) (some (rest, m)) h k = λ z.
    subst (λ l. contains l start_marker ≡ true)
      (sym (concat-append (u ++ s) rest ∙ ap (λ l. l ++ concat rest) (concat-append u s)))
      (contains-before (concat u ++ concat s) (concat rest) start_marker
        (contains-before (concat u) (concat s) start_marker (h (omega arith))))

merge_from-Marked :
    (base ours theirs : List Text) (rs : List SyncRegion) (bp op tp : ℕ)
    → Marked (merge_from base ours theirs rs bp op tp)
unfolding merge_from
merge_from-Marked base ours theirs [] bp op tp = merge_cuts-Marked _ _ _
merge_from-Marked base ours theirs (r ∷ rs) bp op tp =
    join_parts-Marked _ _ _ (merge_cuts-Marked _ _ _)
      (merge_from-Marked base ours theirs rs r.base_end r.ours_end r.theirs_end)

-- What is said of a merge that has an outcome.
abbrev pub IsMarked : Option (Text × ℕ) → Type 0
IsMarked none = Unit
IsMarked (some (content, conflicts)) = 0 < conflicts → has_conflict_markers content ≡ true

bytes_of-Marked : (o : Option (List Text × ℕ)) → Marked o → IsMarked (bytes_of o)
unfolding has_conflict_markers
bytes_of-Marked none h = _
bytes_of-Marked (some (ls, n)) h = λ z. rw (h z) refl

-- hasConflictMarkers recognises the result of a merge that counts a conflict.
pub merge3-IsMarked :
    (matching_blocks : List Text → List Text → List Block) (base ours theirs : Text)
    → IsMarked (merge3 matching_blocks base ours theirs)
unfolding merge3 merge3_lines
merge3-IsMarked matching_blocks base ours theirs = bytes_of-Marked _ (
    merge_from-Marked (split_lines base) (split_lines ours) (split_lines theirs)
      (find_sync_regions matching_blocks (split_lines base) (split_lines ours) (split_lines theirs))
      0 0 0)
