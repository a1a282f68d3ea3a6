-- ===== src/Merge3/Bounds.antt =====
-- Regions one behind the other, of which internal/fuse/merge3.go can take every slice.
use monofs.Prelude.{
  ℕ, ◌-◌, ◌≤◌, Option, none, some, List, [], ◌∷◌, length, take, drop, Bool-cases, Text, inl, inr,
  arith,
}
use monofs.Merge3.{
  SyncRegion, adjacent, extend, coalesce_from, merge_unsynced_region, join_parts, merge_from,
}
use monofs.Merge3.Cuts.{cut_some, cut_end}

-- The merge has an outcome.
abbrev pub HasOutcome : {A : Type 0} → Option A → Type 0
HasOutcome none = ⊥
HasOutcome (some r) = Unit

join_parts-HasOutcome :
    (u : List Text × ℕ) (s : List Text) (o : Option (List Text × ℕ))
    → HasOutcome o
    → HasOutcome (join_parts (some u) (some s) o)
join_parts-HasOutcome u s none h = absurd h
join_parts-HasOutcome (u, n) s (some (rest, m)) h = _

module _ (xs ys zs : List Text) where
  -- Regions behind three positions, one behind the other.
  abbrev pub InBounds : ℕ → ℕ → ℕ → List SyncRegion → Type 0
  InBounds bp op tp [] = (bp ≤ length xs) × (op ≤ length ys) × (tp ≤ length zs)
  InBounds bp op tp (r ∷ rs) =
      (bp ≤ r.base_start)
      × (op ≤ r.ours_start)
      × (tp ≤ r.theirs_start)
      × (r.base_start ≤ r.base_end)
      × (r.base_end ≤ length xs)
      × (r.ours_start ≤ length ys)
      × (r.theirs_start ≤ length zs)
      × InBounds r.base_end r.ours_end r.theirs_end rs

  pub merge_from-InBounds :
      (rs : List SyncRegion) (bp op tp : ℕ)
      → InBounds bp op tp rs
      → HasOutcome (merge_from xs ys zs rs bp op tp)
  unfolding merge_from
  merge_from-InBounds [] bp op tp (h, k, l) =
      rw (cut_end bp xs h, cut_end op ys k, cut_end tp zs l) _
  merge_from-InBounds (r ∷ rs) bp op tp (h, k, l, be, bl, ol, tl, rest) =
      rw
        (
          cut_some bp r.base_start xs h (omega arith),
          cut_some op r.ours_start ys k ol,
          cut_some tp r.theirs_start zs l tl,
          cut_some r.base_start r.base_end xs be bl,
        )
        (join_parts-HasOutcome
          (merge_unsynced_region (take (r.base_start - bp) (drop bp xs))
            (take (r.ours_start - op) (drop op ys)) (take (r.theirs_start - tp) (drop tp zs)))
          (take (r.base_end - r.base_start) (drop r.base_start xs))
          (merge_from xs ys zs rs r.base_end r.ours_end r.theirs_end)
          (merge_from-InBounds rs r.base_end r.ours_end r.theirs_end rest))

  pub coalesce_from-InBounds :
      (last : SyncRegion) (rs : List SyncRegion) (bp op tp : ℕ)
      → InBounds bp op tp (last ∷ rs)
      → InBounds bp op tp (coalesce_from last rs)
  unfolding coalesce_from
  coalesce_from-InBounds last [] bp op tp h = h
  coalesce_from-InBounds last (r ∷ rs) bp op tp
        (h, k, l, be, bl, ol, tl, (h', k', l', be', bl', ol', tl', rest)) =
      elim (Bool-cases (adjacent last r)) [
        | inl t ↦ rw t (
            coalesce_from-InBounds (extend last r) rs bp op tp
              (h, k, l, omega arith, bl', ol, tl, rest))
        | inr f ↦ rw f (
          h,
          k,
          l,
          be,
          bl,
          ol,
          tl,
          coalesce_from-InBounds r rs last.base_end last.ours_end last.theirs_end
              (h', k', l', be', bl', ol', tl', rest),
        )
      ]
