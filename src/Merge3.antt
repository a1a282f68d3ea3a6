-- ===== src/Merge3.antt =====
-- The three-way merge of lines: internal/fuse/merge3.go. difflib.NewMatcher(a, b).GetMatchingBlocks()
-- of the package go-difflib is the parameter `matching_blocks`. A slice beyond its bounds, where Go
-- panics, is `none`.
pub mod Lines
pub mod Symmetry
pub mod Cuts
pub mod Shared
pub mod SameChange
pub mod Fuel
pub mod Markers
pub mod Bounds
pub mod Sync
use monofs.Prelude.{
  ℕ, zero, suc, ◌+◌, ◌-◌, Bool, true, false, not, ◌&&◌, ◌||◌, contains, Option, none, some, List,
  [], ◌∷◌, ◌++◌, length, take, drop, ltb, leb, ◌==◌, if◌then◌else◌, Text, codes, text_eq, split,
  is_empty,
}

pub record Block : Type 0 where
  pub block_a : ℕ
  pub block_b : ℕ
  pub block_size : ℕ

pub record SyncRegion : Type 0 where
  pub base_start : ℕ
  pub base_end : ℕ
  pub ours_start : ℕ
  pub ours_end : ℕ
  pub theirs_start : ℕ
  pub theirs_end : ℕ

-- `s[from:to]`.
unfoldable pub cut {ℓ} : {A : Type ℓ} → ℕ → ℕ → List A → Option (List A)
cut from to xs =
    if leb from to && leb to (length xs) then some (take (to - from) (drop from xs)) else none

abbrev pub max : ℕ → ℕ → ℕ
max m n = if leb m n then n else m

abbrev pub min : ℕ → ℕ → ℕ
min m n = if leb m n then m else n

abbrev pub block_end : Block → ℕ
block_end m = m.block_a + m.block_size

-- Where two blocks meet in the base.
abbrev pub common_start : Block → Block → ℕ
common_start om tm = max om.block_a tm.block_a

abbrev pub common_end : Block → Block → ℕ
common_end om tm = min (block_end om) (block_end tm)

abbrev pub region_of : Block → Block → SyncRegion
region_of om tm = record {
  base_start = common_start om tm;
  base_end = common_end om tm;
  ours_start = om.block_b + (common_start om tm - om.block_a);
  ours_end = om.block_b + (common_end om tm - om.block_a);
  theirs_start = tm.block_b + (common_start om tm - tm.block_a);
  theirs_end = tm.block_b + (common_end om tm - tm.block_a);
}

abbrev pub add_region : Block → Block → List SyncRegion → List SyncRegion
add_region om tm rs =
    if ltb (common_start om tm) (common_end om tm) then region_of om tm ∷ rs else rs

-- What is left of either list behind a step: the block that ends first is dropped.
abbrev pub left_ours : Block → Block → List Block → List Block
left_ours om tm os = if ltb (block_end tm) (block_end om) then om ∷ os else os

abbrev pub left_theirs : Block → Block → List Block → List Block
left_theirs om tm ts = if ltb (block_end om) (block_end tm) then tm ∷ ts else ts

-- The loop over both lists of blocks, on fuel: each step drops a block.
unfoldable pub intersect : ℕ → List Block → List Block → List SyncRegion
intersect zero os ts = []
intersect (suc fuel) [] ts = []
intersect (suc fuel) (om ∷ os) [] = []
intersect (suc fuel) (om ∷ os) (tm ∷ ts) =
    add_region om tm (intersect fuel (left_ours om tm os) (left_theirs om tm ts))

abbrev pub adjacent : SyncRegion → SyncRegion → Bool
adjacent last r =
    last.base_end == r.base_start
    && (last.ours_end == r.ours_start && last.theirs_end == r.theirs_start)

abbrev pub extend : SyncRegion → SyncRegion → SyncRegion
extend last r = record last {
  base_end = r.base_end;
  ours_end = r.ours_end;
  theirs_end = r.theirs_end;
}

-- `coalesced` says whether the region was joined to the last one.
abbrev pub next_last : Bool → SyncRegion → SyncRegion → SyncRegion
next_last coalesced last r = if coalesced then extend last r else r

abbrev pub keep_last : Bool → SyncRegion → List SyncRegion → List SyncRegion
keep_last coalesced last rs = if coalesced then rs else last ∷ rs

unfoldable pub coalesce_from : SyncRegion → List SyncRegion → List SyncRegion
coalesce_from last [] = last ∷ []
coalesce_from last (r ∷ rs) =
    keep_last (adjacent last r) last (coalesce_from (next_last (adjacent last r) last r) rs)

abbrev pub coalesce : List SyncRegion → List SyncRegion
coalesce [] = []
coalesce (r ∷ rs) = coalesce_from r rs

unfoldable pub sync_regions : List Block → List Block → List SyncRegion
unfolding intersect coalesce_from
sync_regions os ts = coalesce (intersect (length os + length ts) os ts)

-- `equalLines`.
unfoldable pub equal_lines : List Text → List Text → Bool
equal_lines [] [] = true
equal_lines [] (y ∷ ys) = false
equal_lines (x ∷ xs) [] = false
equal_lines (x ∷ xs) (y ∷ ys) = text_eq x y && equal_lines xs ys

-- `conflictRegion`.
abbrev pub conflict_region : List Text → List Text → List Text → List Text
conflict_region base ours theirs =
    codes "<<<<<<< MONOFS-LOCAL\n" ∷ ours
    ++ codes "||||||| BASE\n" ∷ base
    ++ codes "=======\n" ∷ theirs
    ++ codes ">>>>>>> MONOFS-UPSTREAM\n" ∷ []

-- `mergeUnsyncedRegion`: the lines, and the number of conflicts.
unfoldable pub merge_unsynced_region : List Text → List Text → List Text → List Text × ℕ
unfolding equal_lines
merge_unsynced_region base ours theirs =
    if equal_lines base ours && equal_lines base theirs
    then (base, 0)
    else if equal_lines base ours
    then (theirs, 0)
    else if equal_lines base theirs
    then (ours, 0)
    else if equal_lines ours theirs
    then (ours, 0)
    else (conflict_region base ours theirs, 1)

abbrev pub merge_cuts :
    Option (List Text) → Option (List Text) → Option (List Text) → Option (List Text × ℕ)
merge_cuts none o t = none
merge_cuts (some b) none t = none
merge_cuts (some b) (some o) none = none
merge_cuts (some b) (some o) (some t) = some (merge_unsynced_region b o t)

abbrev pub join_parts :
    Option (List Text × ℕ) → Option (List Text) → Option (List Text × ℕ) → Option (List Text × ℕ)
join_parts none s r = none
join_parts (some (u, n)) none r = none
join_parts (some (u, n)) (some s) none = none
join_parts (some (u, n)) (some s) (some (rest, m)) = some (u ++ s ++ rest, n + m)

-- The loop of `merge3Lines` from the positions behind the last region.
unfoldable pub merge_from :
    List Text → List Text → List Text → List SyncRegion → ℕ → ℕ → ℕ → Option (List Text × ℕ)
unfolding merge_unsynced_region cut
merge_from base ours theirs [] bp op tp =
    merge_cuts (cut bp (length base) base) (cut op (length ours) ours)
      (cut tp (length theirs) theirs)
merge_from base ours theirs (r ∷ rs) bp op tp =
    join_parts
      (merge_cuts (cut bp r.base_start base) (cut op r.ours_start ours)
        (cut tp r.theirs_start theirs))
      (cut r.base_start r.base_end base)
      (merge_from base ours theirs rs r.base_end r.ours_end r.theirs_end)

module _ (matching_blocks : List Text → List Text → List Block) where
  -- `findSyncRegions`.
  unfoldable pub find_sync_regions : List Text → List Text → List Text → List SyncRegion
  unfolding sync_regions
  find_sync_regions base ours theirs =
      sync_regions (matching_blocks base ours) (matching_blocks base theirs)

  unfoldable pub merge3_lines : List Text → List Text → List Text → Option (List Text × ℕ)
  unfolding merge_from find_sync_regions
  merge3_lines base ours theirs =
      merge_from base ours theirs (find_sync_regions base ours theirs) 0 0 0

-- `splitLines`.
unfoldable pub with_newlines : List Text → List Text
with_newlines [] = []
with_newlines (p ∷ []) = if is_empty p then [] else p ∷ []
with_newlines (p ∷ q ∷ ps) = (p ++ codes "\n") ∷ with_newlines (q ∷ ps)

unfoldable pub split_lines : Text → List Text
unfolding with_newlines split
split_lines content = if is_empty content then [] else with_newlines (split 10 content)

unfoldable pub concat : List Text → Text
concat [] = []
concat (l ∷ ls) = l ++ concat ls

abbrev pub bytes_of : Option (List Text × ℕ) → Option (Text × ℕ)
bytes_of none = none
bytes_of (some (ls, n)) = some (concat ls, n)

-- `Merge3`.
unfoldable pub merge3 :
    (List Text → List Text → List Block) → Text → Text → Text → Option (Text × ℕ)
unfolding merge3_lines concat split_lines
merge3 matching_blocks base ours theirs =
    bytes_of
      (merge3_lines matching_blocks (split_lines base) (split_lines ours) (split_lines theirs))

-- `hasConflictMarkers`.
unfoldable pub has_conflict_markers : Text → Bool
unfolding contains
has_conflict_markers content =
    contains content (codes "<<<<<<< MONOFS-LOCAL")
    || contains content (codes ">>>>>>> MONOFS-UPSTREAM")
