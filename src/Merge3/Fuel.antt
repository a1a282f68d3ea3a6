-- ===== src/Merge3/Fuel.antt =====
-- The loop over the matching blocks of internal/fuse/merge3.go ends: its fuel is enough.
use monofs.Prelude.{
  ℕ, zero, suc, ◌+◌, ◌≤◌, false, List, [], ◌∷◌, length, ltb, Bool-cases, ◌≡◌, refl, ap, inl, inr,
  arith,
}
use monofs.Merge3.{Block, block_end, add_region, left_ours, left_theirs, intersect}

-- A step drops a block.
left-length :
    (om tm : Block) (os ts : List Block)
    → length (left_ours om tm os) + length (left_theirs om tm ts) ≤ length os + length ts + 1
left-length om tm os ts = elim (Bool-cases (ltb (block_end tm) (block_end om))) [
  | inl t ↦
      let other : ltb (block_end om) (block_end tm) ≡ false = ground arith in
      rw (t, other) (omega arith)
  | inr f ↦ elim (Bool-cases (ltb (block_end om) (block_end tm))) [
    | inl t ↦ rw (f, t) (omega arith)
    | inr g ↦ rw (f, g) (omega arith)
  ]
]

-- More fuel than there are blocks makes no difference: findSyncRegions has looked at every pair of
-- blocks that it looks at when it ends.
pub intersect_enough :
    (fuel more : ℕ) (os ts : List Block)
    → length os + length ts ≤ fuel
    → length os + length ts ≤ more
    → intersect fuel os ts ≡ intersect more os ts
unfolding intersect
intersect_enough zero zero os ts h k = refl
intersect_enough zero (suc more) [] ts h k = refl
intersect_enough zero (suc more) (om ∷ os) ts h k = absurd (omega arith)
intersect_enough (suc fuel) zero [] ts h k = refl
intersect_enough (suc fuel) zero (om ∷ os) ts h k = absurd (omega arith)
intersect_enough (suc fuel) (suc more) [] ts h k = refl
intersect_enough (suc fuel) (suc more) (om ∷ os) [] h k = refl
intersect_enough (suc fuel) (suc more) (om ∷ os) (tm ∷ ts) h k =
    let less = left-length om tm os ts in
    ap (add_region om tm) (
      intersect_enough fuel more (left_ours om tm os) (left_theirs om tm ts) (omega (arith, less))
        (omega (arith, less)))
