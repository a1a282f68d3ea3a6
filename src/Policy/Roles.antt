-- ===== src/Policy/Roles.antt =====
-- What Role of pkg/authz/policy/policy.go returns.
use monofs.Prelude.{
  ℕ, Bool, true, false, not, ◌&&◌, ◌||◌, List, [], ◌∷◌, filter, any, all, ltb, leb, if◌then◌else◌,
  Text, text_eq, text_eq_refl, is_empty, Bool-cases, ◌≡◌, refl, sym, subst, ap, ap₂, ◌∙◌, inl, inr,
  arith, ◌≤◌,
}
use monofs.Authz.{Identity, is_anonymous}
use monofs.Grants.{Grant, scope_partitions, denies_scope, scope_allows, matches, role_rank}
use monofs.Policy.{Policy, better_role, best_role, matching, role_of}
use monofs.Policy.Decisions.{any-filter}

-- A grant that gives a role on the partition.
unfoldable pub gives_role : Text → Grant → Bool
unfolding denies_scope scope_allows
gives_role partition g =
    not (is_empty g.role || denies_scope g scope_partitions) && scope_allows g.partitions partition

skips_as_one :
    (a b c : Bool) (role best : Text)
    → (if a then best else if not b then best else if c then role else best)
      ≡ (if (not a && b) && c then role else best)
skips_as_one true b c role best = refl
skips_as_one false true true role best = refl
skips_as_one false true false role best = refl
skips_as_one false false c role best = refl

-- One round takes the role of a grant that gives a higher one.
better_role-gives_role :
    (g : Grant) (partition best : Text)
    → better_role g partition best
      ≡ (if gives_role partition g && ltb (role_rank best) (role_rank g.role) then g.role else best)
unfolding gives_role
better_role-gives_role g partition best =
    skips_as_one (is_empty g.role || denies_scope g scope_partitions)
      (scope_allows g.partitions partition) (ltb (role_rank best) (role_rank g.role)) g.role best

-- The rank never falls, and reaches that of every grant that gives a role.
rank-better_role :
    (g : Grant) (partition best : Text)
    → (role_rank best ≤ role_rank (better_role g partition best))
      × ((not (gives_role partition g)
            || leb (role_rank g.role) (role_rank (better_role g partition best)))
          ≡ true)
rank-better_role g partition best =
    rw (better_role-gives_role g partition best) (elim (Bool-cases (gives_role partition g)) [
      | inl t ↦ elim (Bool-cases (ltb (role_rank best) (role_rank g.role))) [
        | inl l ↦ rw (t, l) (ground arith)
        | inr l ↦ rw (t, l) (ground arith)
      ]
      | inr f ↦ rw f (ground arith)
    ])

best_role-rises :
    (partition best : Text) (gs : List Grant)
    → role_rank best ≤ role_rank (best_role partition best gs)
unfolding best_role
best_role-rises partition best [] = omega arith
best_role-rises partition best (g ∷ gs) =
    let (up, _) = rank-better_role g partition best in
    omega (arith, up, best_role-rises partition (better_role g partition best) gs)

abbrev pub within : Text → Text → Grant → Bool
within partition highest g =
    not (gives_role partition g) || leb (role_rank g.role) (role_rank highest)

within_up : (g : Bool) (r n h : ℕ) → (not g || leb r n) ≡ true → n ≤ h → (not g || leb r h) ≡ true
within_up true r n h e u = ground arith
within_up false r n h e u = refl

best_role-highest :
    (partition best : Text) (gs : List Grant)
    → all (within partition (best_role partition best gs)) gs ≡ true
unfolding best_role
best_role-highest partition best [] = refl
best_role-highest partition best (g ∷ gs) =
    let next = better_role g partition best in
    let (_, reached) = rank-better_role g partition best in
    let up = best_role-rises partition next gs in
    let rest = best_role-highest partition next gs in
    ap₂ (λ a b. a && b) (within_up (gives_role partition g) _ _ _ reached up) rest

abbrev pub gives : Text → Text → Grant → Bool
gives partition role g = gives_role partition g && text_eq g.role role

given_step :
    (g l : Bool) (role best highest : Text) (others : Bool)
    → (text_eq (if g && l then role else best) highest || others) ≡ true
    → (text_eq best highest || ((g && text_eq role highest) || others)) ≡ true
given_step true true role best highest others e = ground arith
given_step true false role best highest others e = ground arith
given_step false l role best highest others e = ground arith

-- A role that comes out, unless it was there before, is one that a grant gives.
best_role-given :
    (partition best : Text) (gs : List Grant)
    → (text_eq best (best_role partition best gs)
        || any (gives partition (best_role partition best gs)) gs)
      ≡ true
unfolding best_role
best_role-given partition best [] = rw (text_eq_refl best) refl
best_role-given partition best (g ∷ gs) =
    let next = better_role g partition best in
    let highest = best_role partition next gs in
    let others = any (gives partition highest) gs in
    given_step (gives_role partition g) (ltb (role_rank best) (role_rank g.role)) g.role best
      highest others
      (ap (λ n. text_eq n highest || others) (sym (better_role-gives_role g partition best))
        ∙ best_role-given partition next gs)

-- What a test finds all of the matching grants to pass.
all-filter :
    (select test : Grant → Bool) (gs : List Grant)
    → all test (filter select gs) ≡ all (λ g. not (select g) || test g) gs
all-filter select test [] = refl
all-filter select test (g ∷ gs) = elim (Bool-cases (select g)) [
  | inl t ↦ rw t (ap (λ b. test g && b) (all-filter select test gs))
  | inr f ↦ rw f (all-filter select test gs)
]

-- No grant is an anonymous identity's.
filter-anonymous :
    (fold : ℕ → ℕ) (id : Identity) (gs : List Grant)
    → is_anonymous id ≡ true
    → filter (λ g. matches fold g id) gs ≡ []
unfolding matches
filter-anonymous fold id [] a = refl
filter-anonymous fold id (g ∷ gs) a = simp (a, filter-anonymous fold id gs a)

if_anonymous :
    (a : Bool) (partition : Text) (gs : List Grant)
    → (a ≡ true → gs ≡ [])
    → (if a then [] else best_role partition [] gs) ≡ best_role partition [] gs
unfolding best_role
if_anonymous true partition gs h = ap (best_role partition []) (sym (h refl))
if_anonymous false partition gs h = refl

role_of-best_role :
    (fold : ℕ → ℕ) (p : Policy) (id : Identity) (partition : Text)
    → best_role partition [] (filter (λ g. matches fold g id) p.bundle.grants)
      ≡ role_of fold p id partition
unfolding role_of matching
role_of-best_role fold p id partition = sym (
    if_anonymous (is_anonymous id) partition (filter (λ g. matches fold g id) p.bundle.grants)
      (filter-anonymous fold id p.bundle.grants))

-- No grant of the identity gives a role of higher rank, and one of them gives this role, unless it
-- is the empty role.
unfoldable pub IsHighestRole : (ℕ → ℕ) → Policy → Identity → Text → Text → Type 0
IsHighestRole fold p id partition role =
    (all (λ g. not (matches fold g id) || within partition role g) p.bundle.grants ≡ true)
    × ((text_eq [] role || any (λ g. matches fold g id && gives partition role g) p.bundle.grants)
        ≡ true)

-- Role returns a role of highest rank among those that the identity's grants give on the partition:
-- no grant gives one of higher rank, and one of them gives this role, unless it is the empty role. A
-- grant gives its role if it lists the partition and does not itself deny the scope of partitions.
pub role_of-IsHighestRole :
    (fold : ℕ → ℕ) (p : Policy) (id : Identity) (partition : Text)
    → IsHighestRole fold p id partition (role_of fold p id partition)
unfolding IsHighestRole
role_of-IsHighestRole fold p id partition =
    let mine = filter (λ g. matches fold g id) p.bundle.grants in
    let role = best_role partition [] mine in
    subst (IsHighestRole fold p id partition) (role_of-best_role fold p id partition) (
      sym (all-filter (λ g. matches fold g id) (within partition role) p.bundle.grants)
          ∙ best_role-highest partition [] mine,
      ap (λ b. text_eq [] role || b)
            (sym (any-filter (λ g. matches fold g id) (gives partition role) p.bundle.grants))
          ∙ best_role-given partition [] mine,
    )
