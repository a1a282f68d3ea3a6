-- ===== src/Merge3/Shared.antt =====
-- Regions that both sides share with the base: internal/fuse/merge3.go.
use monofs.Prelude.{
  ℕ, ◌-◌, ◌≤◌, some, List, [], ◌∷◌, ◌++◌, length, take, drop, append_assoc, Bool-cases, Text, ◌≡◌,
  refl, sym, ap, ap₂, ◌∙◌, inl, inr, arith,
}
use monofs.Merge3.{
  SyncRegion, cut, adjacent, extend, coalesce_from, equal_lines, merge_unsynced_region, merge_cuts,
  join_parts, merge_from,
}
use monofs.Merge3.Cuts.{take-drop_on, take-drop_between, cut_some, cut_end}
use monofs.Merge3.Lines.{equal_lines_sound, equal_lines_refl}

-- Regions behind two positions in which the base and a side agree, the same for both sides.
abbrev pub AreShared : List Text → List Text → ℕ → ℕ → List SyncRegion → Type 0
AreShared xs ys bp op [] = (bp ≤ length xs) × (op ≤ length ys)
AreShared xs ys bp op (r ∷ rs) =
    (bp ≤ r.base_start)
    × (op ≤ r.ours_start)
    × (r.base_start ≤ r.base_end)
    × (r.ours_start ≤ r.ours_end)
    × (r.base_end ≤ length xs)
    × (r.ours_end ≤ length ys)
    × (r.theirs_start ≡ r.ours_start)
    × (r.theirs_end ≡ r.ours_end)
    × (take (r.base_end - r.base_start) (drop r.base_start xs)
        ≡ take (r.ours_end - r.ours_start) (drop r.ours_start ys))
    × AreShared xs ys r.base_end r.ours_end rs

pub AreShared-le :
    (xs ys : List Text) (bp op bp' op' : ℕ) (rs : List SyncRegion)
    → bp' ≤ bp
    → op' ≤ op
    → AreShared xs ys bp op rs
    → AreShared xs ys bp' op' rs
AreShared-le xs ys bp op bp' op' [] p q (h, k) = (omega arith, omega arith)
AreShared-le xs ys bp op bp' op' (r ∷ rs) p q (h, k, bs, os, be, oe, ts, te, eq, rest) =
    (omega arith, omega arith, bs, os, be, oe, ts, te, eq, rest)

unsynced_same : (b o : List Text) → merge_unsynced_region b o o ≡ (o, 0)
unfolding merge_unsynced_region
unsynced_same b o = elim (Bool-cases (equal_lines b o)) [
  | inl x ↦ rw x (ap (λ l. (l, 0)) (equal_lines_sound b o x))
  | inr x ↦ rw (x, equal_lines_refl o) refl
]

joined :
    (b o s rest whole : List Text)
    → o ++ (s ++ rest) ≡ whole
    → join_parts (merge_cuts (some b) (some o) (some o)) (some s) (some (rest, 0)) ≡ some (whole, 0)
joined b o s rest whole e =
    ap (λ (u : List Text × ℕ). join_parts (some u) (some s) (some (rest, 0))) (unsynced_same b o)
    ∙ ap (λ l. some (l, 0)) (append_assoc o s rest ∙ e)

pub merge_from-AreShared :
    (base ours : List Text) (rs : List SyncRegion) (bp op : ℕ)
    → AreShared base ours bp op rs
    → merge_from base ours ours rs bp op op ≡ some (drop op ours, 0)
unfolding merge_from
merge_from-AreShared base ours [] bp op (h, k) =
    let c = cut_end op ours k in
    rw (cut_end bp base h, c) (ap some (unsynced_same (drop bp base) (drop op ours)))
merge_from-AreShared base ours (r ∷ rs) bp op (h, k, bs, os, be, oe, ts, te, eq, rest) =
    ap₂
      (λ from to.
        join_parts
          (merge_cuts (cut bp r.base_start base) (cut op r.ours_start ours) (cut op from ours))
          (cut r.base_start r.base_end base)
          (merge_from base ours ours rs r.base_end r.ours_end to))
      ts te
    ∙ rw
        (
          cut_some bp r.base_start base h (omega arith),
          cut_some op r.ours_start ours k (omega arith),
          cut_some r.base_start r.base_end base bs be,
          merge_from-AreShared base ours rs r.base_end r.ours_end rest,
        )
        (joined (take (r.base_start - bp) (drop bp base)) (take (r.ours_start - op) (drop op ours))
          (take (r.base_end - r.base_start) (drop r.base_start base)) (drop r.ours_end ours)
          (drop op ours)
          (ap (λ l. take (r.ours_start - op) (drop op ours) ++ (l ++ drop r.ours_end ours)) eq
            ∙ ap (λ l. take (r.ours_start - op) (drop op ours) ++ l)
                (take-drop_on r.ours_start r.ours_end ours os)
            ∙ take-drop_on op r.ours_start ours k))

-- Joining the regions that touch.
pub coalesce_from-AreShared :
    (base ours : List Text) (last : SyncRegion) (rs : List SyncRegion) (bp op : ℕ)
    → AreShared base ours bp op (last ∷ rs)
    → AreShared base ours bp op (coalesce_from last rs)
unfolding coalesce_from
coalesce_from-AreShared base ours last [] bp op h = h
coalesce_from-AreShared base ours last (r ∷ rs) bp op
      (h, k, bs, os, be, oe, ts, te, eq, (h', k', bs', os', be', oe', ts', te', eq', rest)) =
    elim (Bool-cases (adjacent last r)) [
      | inl t ↦
          let base_meets : last.base_end ≡ r.base_start = ground arith in
          let ours_meets : last.ours_end ≡ r.ours_start = ground arith in
          rw t (
            coalesce_from-AreShared base ours (extend last r) rs bp op (
              h,
              k,
              omega arith,
              omega arith,
              be',
              oe',
              ts,
              te',
              take-drop_between last.base_start r.base_start r.base_end base (omega arith) bs'
                  ∙ ap₂ (λ xs ys. xs ++ ys)
                      (ap (λ n. take (n - last.base_start) (drop last.base_start base))
                          (sym base_meets)
                        ∙ eq
                        ∙ ap (λ n. take (n - last.ours_start) (drop last.ours_start ours))
                            ours_meets)
                      eq'
                  ∙ sym (
                      take-drop_between last.ours_start r.ours_start r.ours_end ours (omega arith)
                        os'),
              rest,
            ))
      | inr f ↦ rw f (
        h,
        k,
        bs,
        os,
        be,
        oe,
        ts,
        te,
        eq,
        coalesce_from-AreShared base ours r rs last.base_end last.ours_end
            (h', k', bs', os', be', oe', ts', te', eq', rest),
      )
    ]
