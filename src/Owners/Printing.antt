-- ===== src/Owners/Printing.antt =====
-- Owner references as OWNERS files write them: String and parseOwnerRef of pkg/authz/owners.go.
use monofs.Prelude.{
  ℕ, Bool, true, false, [], ◌∷◌, ◌++◌, ◌==◌, Bool-cases, Text, codes, trim_space, trim_space_left,
  trim_space_right, keep_unless, is_space, ◌≡◌, refl, sym, ap, subst, ◌∙◌, inl, inr, Result, ok,
  err,
}
use monofs.Owners.{OwnerRef, OwnersError, owner_string, is_team, team_ref, ref_of, parse_owner_ref}

keep_unless-trim_space_right :
    (b : Bool) (x : ℕ) (ys : Text)
    → (b ≡ is_space x)
    → trim_space_right ys ≡ ys
    → trim_space_right (keep_unless b x ys) ≡ keep_unless b x ys
unfolding trim_space_right
keep_unless-trim_space_right true x [] e h = refl
keep_unless-trim_space_right false x [] e h = ap (λ b. keep_unless b x []) (sym e)
keep_unless-trim_space_right true x (y ∷ ys) e h =
    ap (keep_unless (is_space x) x) h ∙ ap (λ b. keep_unless b x (y ∷ ys)) (sym e)
keep_unless-trim_space_right false x (y ∷ ys) e h =
    ap (keep_unless (is_space x) x) h ∙ ap (λ b. keep_unless b x (y ∷ ys)) (sym e)

trim_space_right_twice : (s : Text) → trim_space_right (trim_space_right s) ≡ trim_space_right s
unfolding trim_space_right
trim_space_right_twice [] = refl
trim_space_right_twice (x ∷ s) =
    keep_unless-trim_space_right (is_space x) x (trim_space_right s) refl (trim_space_right_twice s)

-- What is left when the spaces before it are gone begins with no space.
trim_space_left-right :
    (s : Text)
    → trim_space_left (trim_space_right (trim_space_left s)) ≡ trim_space_right (trim_space_left s)
unfolding trim_space_left trim_space_right
trim_space_left-right [] = refl
trim_space_left-right (x ∷ s) = elim (Bool-cases (is_space x)) [
  | inl t ↦ rw t (trim_space_left-right s)
  | inr f ↦ rw (f, f) (begins x (trim_space_right s) f)
]
  where
    begins :
        (y : ℕ) (ys : Text)
        → is_space y ≡ false
        → trim_space_left (keep_unless false y ys) ≡ keep_unless false y ys
    begins y [] h = rw h refl
    begins y (z ∷ zs) h = rw h refl

trim_space_twice : (s : Text) → trim_space (trim_space s) ≡ trim_space s
unfolding trim_space
trim_space_twice s =
    ap trim_space_right (trim_space_left-right s) ∙ trim_space_right_twice (trim_space_left s)

trim_space_right-trimmed : (s : Text) → trim_space s ≡ s → trim_space_right s ≡ s
unfolding trim_space
trim_space_right-trimmed s e =
    ap trim_space_right (sym e) ∙ trim_space_right_twice (trim_space_left s) ∙ e

-- What a reference that is the result prints to parses to it.
abbrev Prints : Result OwnersError OwnerRef → Type 0
Prints (err e) = Unit
Prints (ok r) = parse_owner_ref (owner_string r) ≡ ok r

team-Prints : (raw : Text) (t : Text) → trim_space t ≡ t → Prints (team_ref raw t)
unfolding parse_owner_ref owner_string is_team trim_space trim_space_left trim_space_right
team-Prints raw [] e = _
team-Prints raw (c ∷ cs) e =
    ap (λ x. team_ref (codes "@" ++ c ∷ cs) (trim_space x)) (trim_space_right-trimmed (c ∷ cs) e)
    ∙ ap (team_ref (codes "@" ++ c ∷ cs)) e

ref-Prints : (raw : Text) (s : Text) → trim_space s ≡ s → Prints (ref_of raw s)
unfolding parse_owner_ref owner_string is_team
ref-Prints raw [] e = _
ref-Prints raw (c ∷ cs) e = elim (Bool-cases (c == 64)) [
  | inl t ↦ rw t (team-Prints raw (trim_space cs) (trim_space_twice cs))
  | inr f ↦ rw f (ap (ref_of (c ∷ cs)) e ∙ rw f refl)
]

-- A reference that was parsed is printed to a text that parses to it.
pub parse_owner_ref-owner_string :
    (raw : Text) (r : OwnerRef)
    → parse_owner_ref raw ≡ ok r
    → parse_owner_ref (owner_string r) ≡ ok r
unfolding parse_owner_ref
parse_owner_ref-owner_string raw r h =
    subst Prints h (ref-Prints raw (trim_space raw) (trim_space_twice raw))
