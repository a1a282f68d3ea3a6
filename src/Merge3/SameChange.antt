-- ===== src/Merge3/SameChange.antt =====
-- A change that both sides made: internal/fuse/merge3.go takes it once, without a conflict.
use monofs.Prelude.{
  ℕ, zero, suc, ◌+◌, ◌-◌, ◌≤◌, false, some, List, [], ◌∷◌, length, take, drop, ltb, if◌then◌else◌,
  Bool-cases, Text, ◌≡◌, refl, ap, ap₂, ◌∙◌, inl, inr, arith,
}
use monofs.Merge3.{
  Block, SyncRegion, max, min, block_end, region_of, add_region, intersect, coalesce, sync_regions,
  merge_from, find_sync_regions, merge3_lines, bytes_of, split_lines, merge3,
}
use monofs.Merge3.Lines.{concat-split_lines}
use monofs.Merge3.Shared.{AreShared, AreShared-le, merge_from-AreShared, coalesce_from-AreShared}

-- What GetMatchingBlocks documents: the blocks are equal in both sequences, and do not overlap.
abbrev pub AreBlocks : List Text → List Text → ℕ → ℕ → List Block → Type 0
AreBlocks xs ys a b [] = Unit
AreBlocks xs ys a b (m ∷ ms) =
    (a ≤ m.block_a)
    × (b ≤ m.block_b)
    × (block_end m ≤ length xs)
    × (m.block_b + m.block_size ≤ length ys)
    × (take m.block_size (drop m.block_a xs) ≡ take m.block_size (drop m.block_b ys))
    × AreBlocks xs ys (block_end m) (m.block_b + m.block_size) ms

-- The regions of one list of blocks with itself.
abbrev same_region : Block → SyncRegion
same_region m = record {
  base_start = m.block_a;
  base_end = block_end m;
  ours_start = m.block_b;
  ours_end = m.block_b + m.block_size;
  theirs_start = m.block_b;
  theirs_end = m.block_b + m.block_size;
}

same_regions : List Block → List SyncRegion
same_regions [] = []
same_regions (m ∷ ms) =
    let rest = same_regions ms in if ltb m.block_a (block_end m) then same_region m ∷ rest else rest

max_same : (n : ℕ) → max n n ≡ n
max_same n = ground arith

min_same : (n : ℕ) → min n n ≡ n
min_same n = ground arith

region_of-same : (m : Block) → region_of m m ≡ same_region m
region_of-same m =
    let start : m.block_b + (m.block_a - m.block_a) ≡ m.block_b = omega arith in
    let end : m.block_b + (block_end m - m.block_a) ≡ m.block_b + m.block_size = omega arith in
    ap₂
      (λ from to. record {
        base_start = from;
        base_end = to;
        ours_start = m.block_b + (from - m.block_a);
        ours_end = m.block_b + (to - m.block_a);
        theirs_start = m.block_b + (from - m.block_a);
        theirs_end = m.block_b + (to - m.block_a);
      })
      (max_same m.block_a) (min_same (block_end m))
    ∙ ap₂
        (λ from to. record {
          base_start = m.block_a;
          base_end = block_end m;
          ours_start = from;
          ours_end = to;
          theirs_start = from;
          theirs_end = to;
        })
        start end

add_region-same :
    (m : Block) (rs : List SyncRegion)
    → add_region m m rs ≡ (if ltb m.block_a (block_end m) then same_region m ∷ rs else rs)
add_region-same m rs =
    ap₂ (λ from to. if ltb from to then region_of m m ∷ rs else rs) (max_same m.block_a)
      (min_same (block_end m))
    ∙ ap (λ r. if ltb m.block_a (block_end m) then r ∷ rs else rs) (region_of-same m)

intersect_same :
    (fuel : ℕ) (ms : List Block) → length ms ≤ fuel → intersect fuel ms ms ≡ same_regions ms
unfolding intersect same_regions
intersect_same zero [] h = refl
intersect_same zero (m ∷ ms) h = absurd (omega arith)
intersect_same (suc fuel) [] h = refl
intersect_same (suc fuel) (m ∷ ms) h =
    let none_later : ltb (block_end m) (block_end m) ≡ false = ground arith in
    let ih = intersect_same fuel ms (omega arith) in
    rw none_later (ap (add_region m m) ih ∙ add_region-same m (same_regions ms))

same_regions-AreShared :
    (base ours : List Text) (ms : List Block) (a b : ℕ)
    → a ≤ length base
    → b ≤ length ours
    → AreBlocks base ours a b ms
    → AreShared base ours a b (same_regions ms)
unfolding same_regions
same_regions-AreShared base ours [] a b h k blocks = (h, k)
same_regions-AreShared base ours (m ∷ ms) a b h k (ha, hb, ea, eb, eq, blocks) =
    let rest =
      same_regions-AreShared base ours ms (block_end m) (m.block_b + m.block_size) ea eb blocks in
    elim (Bool-cases (ltb m.block_a (block_end m))) [
      | inl t ↦ rw t (
        ha,
        hb,
        omega arith,
        omega arith,
        ea,
        eb,
        refl,
        refl,
        ap (λ n. take n (drop m.block_a base))
              (let e : block_end m - m.block_a ≡ m.block_size = omega arith in e)
            ∙ eq
            ∙ ap (λ n. take n (drop m.block_b ours))
                (let e : m.block_size ≡ m.block_b + m.block_size - m.block_b = omega arith in e),
        rest,
      )
      | inr f ↦ rw f (
          AreShared-le base ours (block_end m) (m.block_b + m.block_size) a b (same_regions ms)
            (omega arith) (omega arith) rest)
    ]

coalesce-AreShared :
    (base ours : List Text) (rs : List SyncRegion) (bp op : ℕ)
    → AreShared base ours bp op rs
    → AreShared base ours bp op (coalesce rs)
coalesce-AreShared base ours [] bp op h = h
coalesce-AreShared base ours (r ∷ rs) bp op h = coalesce_from-AreShared base ours r rs bp op h

-- A change that both sides made is taken once, byte by byte, and there is no conflict. The blocks that
-- difflib returns are such as it documents.
pub merge3_same :
    (matching_blocks : List Text → List Text → List Block) (base ours : Text)
    → AreBlocks
        (split_lines base)
        (split_lines ours)
        0
        0
        (matching_blocks (split_lines base) (split_lines ours))
    → merge3 matching_blocks base ours ours ≡ some (ours, 0)
unfolding merge3 merge3_lines find_sync_regions sync_regions
merge3_same matching_blocks base ours blocks =
    let bs = split_lines base in
    let os = split_lines ours in
    let ms = matching_blocks bs os in
    ap (λ rs. bytes_of (merge_from bs os os (coalesce rs) 0 0 0))
      (intersect_same (length ms + length ms) ms (omega arith))
    ∙ ap bytes_of (
        merge_from-AreShared bs os (coalesce (same_regions ms)) 0 0 (
          coalesce-AreShared bs os (same_regions ms) 0 0
            (same_regions-AreShared bs os ms 0 0 (omega arith) (omega arith) blocks)))
    ∙ ap (λ content. some (content, 0)) (concat-split_lines ours)
