-- ===== src/Codeowners/Rules.antt =====
-- Which rule of a CODEOWNERS file counts: OwnersFor of pkg/authz/codeowners.go.
use monofs.Prelude.{
  true, false, some, List, [], ◌∷◌, ◌++◌, All, Bool-cases, Text, trim, trim_space, ◌≡◌, ◌⊎◌, refl,
  ap, inl, inr,
}
use monofs.Owners.{OwnerRef}
use monofs.Codeowners.{CodeownersRule, codeowners_pattern_matches, owners_from, owners_for}

abbrev pub Matches : Text → CodeownersRule → Type 0
Matches path r = codeowners_pattern_matches r.pattern path ≡ true

abbrev pub Misses : Text → CodeownersRule → Type 0
Misses path r = codeowners_pattern_matches r.pattern path ≡ false

-- No rule matches, or one does and no later one.
abbrev pub IsLastMatch : List CodeownersRule → Text → List OwnerRef → Type 0
IsLastMatch rules path owners =
    (All (Misses path) rules × (owners ≡ []))
    ⊎ ((before : List CodeownersRule) × (r : CodeownersRule) × (after : List CodeownersRule)
        × (rules ≡ before ++ r ∷ after)
        × Matches path r
        × All (Misses path) after
        × (owners ≡ r.owners))

owners_from-last :
    (matched : List OwnerRef) (rules : List CodeownersRule) (path : Text)
    → (All (Misses path) rules × (owners_from matched rules path ≡ matched))
      ⊎ ((before : List CodeownersRule) × (r : CodeownersRule) × (after : List CodeownersRule)
          × (rules ≡ before ++ r ∷ after)
          × Matches path r
          × All (Misses path) after
          × (owners_from matched rules path ≡ r.owners))
owners_from-last matched [] path = inl (_, refl)
owners_from-last matched (r ∷ rules) path =
    elim (Bool-cases (codeowners_pattern_matches r.pattern path)) [
      | inl t ↦ rw t (elim (owners_from-last r.owners rules path) [
        | inl (miss, same) ↦ inr ([], r, rules, refl, t, miss, same)
        | inr (before, last, after, e, m, miss, same) ↦
            inr (r ∷ before, last, after, ap (λ rs. r ∷ rs) e, m, miss, same)
      ])
      | inr f ↦ rw f (elim (owners_from-last matched rules path) [
        | inl (miss, same) ↦ inl ((refl, miss), same)
        | inr (before, last, after, e, m, miss, same) ↦
            inr (r ∷ before, last, after, ap (λ rs. r ∷ rs) e, m, miss, same)
      ])
    ]

-- OwnersFor returns the owners of the last rule that matches the path, which is trimmed of spaces and
-- slashes, and no owners where no rule matches.
pub owners_for-IsLastMatch :
    (rules : List CodeownersRule) (path : Text)
    → IsLastMatch rules (trim 47 (trim_space path)) (owners_for (some rules) path)
unfolding owners_for
owners_for-IsLastMatch rules path = owners_from-last [] rules (trim 47 (trim_space path))
