-- ===== src/Merge3/Sync.antt =====
-- The slices of merge3Lines of internal/fuse/merge3.go stay within bounds.
use monofs.Prelude.{
  ℕ, zero, suc, ◌+◌, ◌-◌, ◌≤◌, false, Option, none, some, List, [], ◌∷◌, length, ltb, ltb→lt,
  Bool-cases, Text, ◌≡◌, ◌⊎◌, inl, inr, arith,
}
use monofs.Merge3.{
  Block, SyncRegion, max, min, block_end, common_start, common_end, left_ours, left_theirs,
  intersect, coalesce, sync_regions, merge_from, find_sync_regions, merge3_lines, bytes_of,
  split_lines, merge3,
}
use monofs.Merge3.SameChange.{AreBlocks}
use monofs.Merge3.Markers.{IsMarked, merge3-IsMarked}
use monofs.Merge3.Bounds.{HasOutcome, InBounds, merge_from-InBounds, coalesce_from-InBounds}

max_left : (m n : ℕ) → m ≤ max m n
max_left m n = ground arith

max_right : (m n : ℕ) → n ≤ max m n
max_right m n = ground arith

min_left : (m n : ℕ) → min m n ≤ m
min_left m n = ground arith

min_right : (m n : ℕ) → min m n ≤ n
min_right m n = ground arith

-- The blocks of one side from a position on, which may lie within the first of them.
abbrev Side : List Text → List Text → ℕ → ℕ → List Block → Type 0
Side xs ys bp op [] = (bp ≤ length xs) × (op ≤ length ys)
Side xs ys bp op (m ∷ ms) =
    (op ≤ m.block_b + (bp - m.block_a))
    × (bp ≤ block_end m)
    × (block_end m ≤ length xs)
    × (m.block_b + m.block_size ≤ length ys)
    × AreBlocks xs ys (block_end m) (m.block_b + m.block_size) ms

Side-bounds :
    (xs ys : List Text) (bp op : ℕ) (ms : List Block)
    → Side xs ys bp op ms
    → (bp ≤ length xs) × (op ≤ length ys)
Side-bounds xs ys bp op [] h = h
Side-bounds xs ys bp op (m ∷ ms) (c, e, x, y, blocks) = (omega arith, omega arith)

Side-next :
    (xs ys : List Text) (bp op a b : ℕ) (ms : List Block)
    → bp ≤ a
    → op ≤ b
    → a ≤ length xs
    → b ≤ length ys
    → AreBlocks xs ys a b ms
    → Side xs ys bp op ms
Side-next xs ys bp op a b [] h k x y blocks = (omega arith, omega arith)
Side-next xs ys bp op a b (m ∷ ms) h k x y (ha, hb, ea, eb, eq, blocks) =
    (omega arith, omega arith, ea, eb, blocks)

-- One of the next blocks lies behind the position.
abbrev Ahead : ℕ → List Block → List Block → Type 0
Ahead bp [] ts = Unit
Ahead bp (om ∷ os) [] = Unit
Ahead bp (om ∷ os) (tm ∷ ts) = (bp ≤ om.block_a) ⊎ (bp ≤ tm.block_a)

Ahead-ours :
    (xs ys : List Text) (bp a b : ℕ) (os ts : List Block)
    → bp ≤ a
    → AreBlocks xs ys a b os
    → Ahead bp os ts
Ahead-ours xs ys bp a b [] ts h blocks = _
Ahead-ours xs ys bp a b (om ∷ os) [] h blocks = _
Ahead-ours xs ys bp a b (om ∷ os) (tm ∷ ts) h (ha, hb, ea, eb, eq, blocks) = inl (omega arith)

Ahead-theirs :
    (xs ys : List Text) (bp a b : ℕ) (os ts : List Block)
    → bp ≤ a
    → AreBlocks xs ys a b ts
    → Ahead bp os ts
Ahead-theirs xs ys bp a b [] ts h blocks = _
Ahead-theirs xs ys bp a b (om ∷ os) [] h blocks = _
Ahead-theirs xs ys bp a b (om ∷ os) (tm ∷ ts) h (ha, hb, ea, eb, eq, blocks) = inr (omega arith)

-- What a step leaves of the blocks of our side, and of theirs.
left_ours-Side :
    (xs ys : List Text) (om tm : Block) (os : List Block) (bp op : ℕ)
    → Side xs ys bp op (om ∷ os)
    → Side xs ys bp op (left_ours om tm os)
left_ours-Side xs ys om tm os bp op (c, e, x, y, blocks) =
    elim (Bool-cases (ltb (block_end tm) (block_end om))) [
      | inl t ↦ rw t (c, e, x, y, blocks)
      | inr f ↦ rw f (
          Side-next xs ys bp op (block_end om) (om.block_b + om.block_size) os e (omega arith) x y
            blocks)
    ]

left_theirs-Side :
    (xs ys : List Text) (om tm : Block) (ts : List Block) (bp op : ℕ)
    → Side xs ys bp op (tm ∷ ts)
    → Side xs ys bp op (left_theirs om tm ts)
left_theirs-Side xs ys om tm ts bp op h = left_ours-Side xs ys tm om ts bp op h

left-Ahead :
    (xs ys zs : List Text) (om tm : Block) (os ts : List Block) (bp b b' : ℕ)
    → bp ≤ block_end om
    → bp ≤ block_end tm
    → AreBlocks xs ys (block_end om) b os
    → AreBlocks xs zs (block_end tm) b' ts
    → Ahead bp (left_ours om tm os) (left_theirs om tm ts)
left-Ahead xs ys zs om tm os ts bp b b' h k os_blocks ts_blocks =
    elim (Bool-cases (ltb (block_end tm) (block_end om))) [
      | inl t ↦
          let other : ltb (block_end om) (block_end tm) ≡ false = ground arith in
          rw (t, other) (Ahead-theirs xs zs bp (block_end tm) b' (om ∷ os) ts k ts_blocks)
      | inr f ↦ rw f (Ahead-ours xs ys bp (block_end om) b os (left_theirs om tm ts) h os_blocks)
    ]

intersect-InBounds :
    (xs ys zs : List Text) (fuel : ℕ) (os ts : List Block) (bp op tp : ℕ)
    → Side xs ys bp op os
    → Side xs zs bp tp ts
    → Ahead bp os ts
    → InBounds xs ys zs bp op tp (intersect fuel os ts)
unfolding intersect
intersect-InBounds xs ys zs zero os ts bp op tp h k a =
    let (p, q) = Side-bounds xs ys bp op os h in
    let (p', q') = Side-bounds xs zs bp tp ts k in (p, q, q')
intersect-InBounds xs ys zs (suc fuel) [] ts bp op tp (p, q) k a =
    let (p', q') = Side-bounds xs zs bp tp ts k in (p, q, q')
intersect-InBounds xs ys zs (suc fuel) (om ∷ os) [] bp op tp h (p', q') a =
    let (p, q) = Side-bounds xs ys bp op (om ∷ os) h in (p, q, q')
intersect-InBounds xs ys zs (suc fuel) (om ∷ os) (tm ∷ ts) bp op tp (c, e, x, y, blocks)
      (c', e', x', y', blocks') a =
    elim (Bool-cases (ltb (common_start om tm) (common_end om tm))) [
      | inl t ↦
          let from = common_start om tm in
          let to = common_end om tm in
          let order = ltb→lt from to t in
          let om_from = max_left om.block_a tm.block_a in
          let tm_from = max_right om.block_a tm.block_a in
          let om_to = min_left (block_end om) (block_end tm) in
          let tm_to = min_right (block_end om) (block_end tm) in
          let behind : bp ≤ from = elim a [
            | inl l ↦ omega (arith, om_from, l)
            | inr l ↦ omega (arith, tm_from, l)
          ] in
          rw t (
            behind,
            omega arith,
            omega arith,
            omega arith,
            omega arith,
            omega arith,
            omega arith,
            intersect-InBounds xs ys zs fuel (left_ours om tm os) (left_theirs om tm ts) to
                (om.block_b + (to - om.block_a)) (tm.block_b + (to - tm.block_a))
                (left_ours-Side xs ys om tm os to (om.block_b + (to - om.block_a))
                  (omega arith, om_to, x, y, blocks))
                (left_theirs-Side xs zs om tm ts to (tm.block_b + (to - tm.block_a))
                  (omega arith, tm_to, x', y', blocks'))
                (left-Ahead xs ys zs om tm os ts to _ _ om_to tm_to blocks blocks'),
          )
      | inr f ↦ rw f (
          intersect-InBounds xs ys zs fuel (left_ours om tm os) (left_theirs om tm ts) bp op tp
            (left_ours-Side xs ys om tm os bp op (c, e, x, y, blocks))
            (left_theirs-Side xs zs om tm ts bp tp (c', e', x', y', blocks'))
            (left-Ahead xs ys zs om tm os ts bp _ _ e e' blocks blocks'))
    ]

first-Ahead : (os ts : List Block) → Ahead 0 os ts
first-Ahead [] ts = _
first-Ahead (om ∷ os) [] = _
first-Ahead (om ∷ os) (tm ∷ ts) = inl (omega arith)

coalesce-InBounds :
    (xs ys zs : List Text) (rs : List SyncRegion)
    → InBounds xs ys zs 0 0 0 rs
    → InBounds xs ys zs 0 0 0 (coalesce rs)
coalesce-InBounds xs ys zs [] h = h
coalesce-InBounds xs ys zs (r ∷ rs) h = coalesce_from-InBounds xs ys zs r rs 0 0 0 h

bytes_of-HasOutcome : (o : Option (List Text × ℕ)) → HasOutcome o → HasOutcome (bytes_of o)
bytes_of-HasOutcome none h = h
bytes_of-HasOutcome (some (ls, n)) h = _

-- A merge never slices out of bounds, and hasConflictMarkers recognises its result where it counts a
-- conflict. The blocks that difflib returns are such as it documents.
pub merge3-HasOutcome :
    (matching_blocks : List Text → List Text → List Block) (base ours theirs : Text)
    → AreBlocks
        (split_lines base)
        (split_lines ours)
        0
        0
        (matching_blocks (split_lines base) (split_lines ours))
    → AreBlocks
        (split_lines base)
        (split_lines theirs)
        0
        0
        (matching_blocks (split_lines base) (split_lines theirs))
    → HasOutcome (merge3 matching_blocks base ours theirs)
      × IsMarked (merge3 matching_blocks base ours theirs)
unfolding merge3 merge3_lines find_sync_regions sync_regions
merge3-HasOutcome matching_blocks base ours theirs ours_blocks theirs_blocks =
    let xs = split_lines base in
    let ys = split_lines ours in
    let zs = split_lines theirs in
    let os = matching_blocks xs ys in
    let ts = matching_blocks xs zs in
    (
      bytes_of-HasOutcome (merge_from xs ys zs (sync_regions os ts) 0 0 0) (
          merge_from-InBounds xs ys zs (sync_regions os ts) 0 0 0 (
            coalesce-InBounds xs ys zs (intersect (length os + length ts) os ts) (
              intersect-InBounds xs ys zs (length os + length ts) os ts 0 0 0
                (Side-next xs ys 0 0 0 0 os (omega arith) (omega arith) (omega arith) (omega arith)
                  ours_blocks)
                (Side-next xs zs 0 0 0 0 ts (omega arith) (omega arith) (omega arith) (omega arith)
                  theirs_blocks)
                (first-Ahead os ts)))),
      merge3-IsMarked matching_blocks base ours theirs,
    )
