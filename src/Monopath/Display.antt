-- ===== src/Monopath/Display.antt =====
-- SplitDisplayPath of internal/monopath/path.go loses nothing of a path.
use monofs.Prelude.{
  ℕ, suc, ◌-◌, ◌≤◌, ◌<◌, ◌≡◌, refl, ap, ap₂, subst, sym, ◌∙◌, inl, inr, false, ◌||◌, some, List, [],
  ◌∷◌, ◌++◌, length, take, drop, arith, if◌then◌else◌, Bool-cases, Text, text_eq, trim, split, join,
  last_is, last_is-trim, last_is-append, join-split, join-take-drop, take-drop_all,
}
use monofs.Monopath.{slash, cut_at, depth, split_parts, split_display_path}

-- The two parts put together again.
abbrev pub whole : Text → Text → Text
whole d f = if text_eq f [] then d else d ++ slash ∷ f

depth_pos : (first : Text) → 0 < depth first
unfolding depth
depth_pos first = ground arith

cut_at-eq-some :
    (n : ℕ) (parts : List Text) (d f : Text)
    → cut_at n parts ≡ some (d, f)
    → (d ≡ join slash (take n parts)) × (f ≡ join slash (drop n parts)) × (n ≤ length parts)
unfolding cut_at
cut_at-eq-some n parts d f e = ground arith

whole_cons : (d f : Text) (c : ℕ) (cs : Text) → f ≡ c ∷ cs → whole d f ≡ d ++ slash ∷ f
unfolding text_eq
whole_cons d f c cs e = rw e

-- With nothing behind the slash the path would end in one.
join-whole :
    (d f : Text) (path : Text)
    → last_is slash path ≡ false
    → path ≡ d ++ slash ∷ f
    → path ≡ whole d f
join-whole d [] path ends e = absurd (ground (arith, last_is-append slash d, ap (last_is slash) e))
join-whole d (c ∷ f) path ends e = e ∙ sym (whole_cons d (c ∷ f) c f refl)

cut_at-whole :
    (n : ℕ) (parts : List Text) (d f : Text)
    → last_is slash (join slash parts) ≡ false
    → cut_at (suc n) parts ≡ some (d, f)
    → join slash parts ≡ whole d f
unfolding join text_eq
cut_at-whole n parts d f ends e =
    let (pd, pf, long) = cut_at-eq-some (suc n) parts d f e in go (drop (suc n) parts) refl pd pf
  where
    go :
        (rest : List Text)
        → drop (suc n) parts ≡ rest
        → d ≡ join slash (take (suc n) parts)
        → f ≡ join slash (drop (suc n) parts)
        → join slash parts ≡ whole d f
    go [] p pd pf =
        rw (pf ∙ ap (join slash) p) (ap (join slash) (sym (take-drop_all (suc n) parts p)) ∙ sym pd)
    go (q ∷ qs) p pd pf = join-whole d f (join slash parts) ends (
        join-take-drop slash n parts q qs p
        ∙ ap₂ (λ a b. a ++ slash ∷ b) (sym pd) (sym (pf ∙ ap (join slash) p)))

split_parts-whole :
    (parts : List Text) (d f : Text)
    → last_is slash (join slash parts) ≡ false
    → split_parts parts ≡ some (d, f)
    → join slash parts ≡ whole d f
unfolding split_parts
split_parts-whole [] d f ends e = absurd (ground arith)
split_parts-whole (first ∷ parts) d f ends e =
    let positive : depth first ≡ suc (depth first - 1) = omega (arith, depth_pos first) in
    cut_at-whole (depth first - 1) (first ∷ parts) d f ends
      (subst (λ n. cut_at n (first ∷ parts) ≡ some (d, f)) positive e)

split_display_path-parts :
    (p d f : Text)
    → split_display_path p ≡ some (d, f)
    → split_parts (split slash (trim slash p)) ≡ some (d, f)
unfolding split_display_path
split_display_path-parts p d f e = elim (Bool-cases (text_eq p [] || text_eq p (slash ∷ []))) [
  | inl root ↦ cc (rw root at e)
  | inr proper ↦ elim (Bool-cases (text_eq (trim slash p) [])) [
    | inl empty ↦ cc (rw (proper, empty) at e)
    | inr long ↦ rw (proper, long) at e
  ]
]

-- Where SplitDisplayPath succeeds, the display path and the file path, joined by a slash if there is
-- a file path, are the given path without the slashes at its ends.
pub split_display_path-whole :
    (p d f : Text) → split_display_path p ≡ some (d, f) → trim slash p ≡ whole d f
split_display_path-whole p d f e =
    let path : join slash (split slash (trim slash p)) ≡ trim slash p =
      join-split slash (trim slash p) in
    sym path
    ∙ split_parts-whole (split slash (trim slash p)) d f
        (ap (last_is slash) path ∙ last_is-trim slash p) (split_display_path-parts p d f e)
