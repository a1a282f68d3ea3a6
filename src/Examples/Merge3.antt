-- ===== src/Examples/Merge3.antt =====
-- Three-way merges of internal/fuse/merge3.go, with a matcher that finds the common first lines.
use monofs.Prelude.{
  ℕ, suc, some, List, [], ◌∷◌, length, if◌then◌else◌, Text, codes, text_eq, ◌≡◌, refl, arith,
}
use monofs.Merge3.{Block, merge3, merge3_lines, split_lines, intersect}
use monofs.Merge3.Symmetry.{Mirror, merge3_lines-Mirror}
use monofs.Merge3.SameChange.{AreBlocks, merge3_same}
use monofs.Merge3.Markers.{IsMarked}
use monofs.Merge3.Bounds.{HasOutcome}
use monofs.Merge3.Sync.{merge3-HasOutcome}
use monofs.Merge3.Fuel.{intersect_enough}

common : List Text → List Text → ℕ
common [] ys = 0
common (x ∷ xs) [] = 0
common (x ∷ xs) (y ∷ ys) = let rest = common xs ys in if text_eq x y then suc rest else 0

abbrev first_lines : List Text → List Text → List Block
unfolding common
first_lines xs ys =
    record { block_a = 0; block_b = 0; block_size = common xs ys }
    ∷ record { block_a = length xs; block_b = length ys; block_size = 0 }
    ∷ []

abbrev base : Text
base = codes "a\nb\n"

abbrev changed : Text
changed = codes "a\nc\n"

one_side : merge3 first_lines base changed base ≡ some (changed, 0)
unfolding merge3 first_lines text_eq
one_side = refl

conflict :
    merge3 first_lines base changed (codes "a\nd\n")
    ≡ some (
      codes "a\n<<<<<<< MONOFS-LOCAL\nc\n||||||| BASE\nb\n=======\nd\n>>>>>>> MONOFS-UPSTREAM\n",
      1,
    )
unfolding merge3 first_lines text_eq
conflict = refl

-- A last line without a newline takes up the marker behind it.
glued_marker :
    merge3 first_lines base (codes "a\nc") (codes "a\nd\n")
    ≡ some (
      codes "a\n<<<<<<< MONOFS-LOCAL\nc||||||| BASE\nb\n=======\nd\n>>>>>>> MONOFS-UPSTREAM\n",
      1,
    )
unfolding merge3 first_lines text_eq
glued_marker = refl

merge3_lines-Mirror_example :
    Mirror
      (merge3_lines first_lines (split_lines base) (split_lines changed) (split_lines base))
      (merge3_lines first_lines (split_lines base) (split_lines base) (split_lines changed))
merge3_lines-Mirror_example =
    merge3_lines-Mirror first_lines (split_lines base) (split_lines changed) (split_lines base)

blocks :
    AreBlocks
      (split_lines base)
      (split_lines changed)
      0
      0
      (first_lines (split_lines base) (split_lines changed))
unfolding first_lines split_lines text_eq
blocks = (
  omega arith,
  omega arith,
  omega arith,
  omega arith,
  refl,
  (omega arith, omega arith, omega arith, omega arith, refl, _),
)

merge3_same_example : merge3 first_lines base changed changed ≡ some (changed, 0)
merge3_same_example = merge3_same first_lines base changed blocks

abbrev pieces : List Block
pieces =
    record { block_a = 0; block_b = 1; block_size = 2 }
    ∷ record { block_a = 3; block_b = 3; block_size = 1 }
    ∷ []

intersect_enough_example : intersect 4 pieces pieces ≡ intersect 9 pieces pieces
intersect_enough_example = intersect_enough 4 9 pieces pieces (omega arith) (omega arith)

abbrev other : Text
other = codes "a\nd\n"

other_blocks :
    AreBlocks
      (split_lines base)
      (split_lines other)
      0
      0
      (first_lines (split_lines base) (split_lines other))
unfolding first_lines split_lines text_eq
other_blocks = (
  omega arith,
  omega arith,
  omega arith,
  omega arith,
  refl,
  (omega arith, omega arith, omega arith, omega arith, refl, _),
)

merge3-HasOutcome_example :
    HasOutcome (merge3 first_lines base changed other)
    × IsMarked (merge3 first_lines base changed other)
merge3-HasOutcome_example = merge3-HasOutcome first_lines base changed other blocks other_blocks
