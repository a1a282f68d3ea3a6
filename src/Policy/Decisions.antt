-- ===== src/Policy/Decisions.antt =====
-- What `can` of pkg/authz/policy/policy.go decides.
use monofs.Prelude.{
  ℕ, Bool, true, false, not, ◌&&◌, ◌||◌, List, [], ◌∷◌, filter, any, if◌then◌else◌, Text, codes,
  has_text, Bool-cases, ◌≡◌, refl, ap, ap₂, ◌∙◌, inl, inr, arith, text_eq,
}
use monofs.Authz.{Identity, is_anonymous, role_admin}
use monofs.Grants.{Grant, defaults_allows, denies_scope, scope_allows, matches, scope_list}
use monofs.Policy.{Policy, any_denies, any_allows, any_admin, matching, is_admin, denied, can}

-- A list names a partition, or everything.
abbrev pub lists : List Text → Text → Bool
lists items partition = has_text (codes "*") items || has_text partition items

pub scope_allows-lists :
    (items : List Text) (partition : Text) → scope_allows items partition ≡ lists items partition
unfolding scope_allows has_text
scope_allows-lists [] partition = refl
scope_allows-lists (item ∷ items) partition = ground (arith, scope_allows-lists items partition)

-- The decision, grant by grant. An administrator's grant admits to everything. One grant of the
-- identity that denies the scope outweighs all others; without one, a grant that lists the
-- partition is enough, and so is the default.
abbrev pub decision : (ℕ → ℕ) → Policy → Identity → Text → Text → Bool
decision fold p id scope partition =
    any (λ g. text_eq g.role role_admin && matches fold g id) p.bundle.grants
    || (not (any (λ g. matches fold g id && has_text scope g.deny) p.bundle.grants)
        && (any (λ g. matches fold g id && lists (scope_list g scope) partition) p.bundle.grants
            || defaults_allows p.bundle.defaults scope))

any_admin-any :
    (fold : ℕ → ℕ) (id : Identity) (gs : List Grant)
    → any_admin fold id gs ≡ any (λ g. text_eq g.role role_admin && matches fold g id) gs
unfolding any_admin
any_admin-any fold id [] = refl
any_admin-any fold id (g ∷ gs) =
    ap (λ b. (text_eq g.role role_admin && matches fold g id) || b) (any_admin-any fold id gs)

-- Going through the grants that a test selects.
pub any-filter :
    (select test : Grant → Bool) (gs : List Grant)
    → any test (filter select gs) ≡ any (λ g. select g && test g) gs
any-filter select test [] = refl
any-filter select test (g ∷ gs) = elim (Bool-cases (select g)) [
  | inl t ↦ rw t (ap (λ b. test g || b) (any-filter select test gs))
  | inr f ↦ rw f (any-filter select test gs)
]

any_denies-any :
    (scope : Text) (gs : List Grant) → any_denies scope gs ≡ any (λ g. has_text scope g.deny) gs
unfolding any_denies denies_scope
any_denies-any scope [] = refl
any_denies-any scope (g ∷ gs) = ap (λ b. has_text scope g.deny || b) (any_denies-any scope gs)

-- Where no grant denies the scope, the test inside the loop is idle.
pub any_allows-any :
    (scope partition : Text) (gs : List Grant)
    → any_denies scope gs ≡ false
    → any_allows scope partition gs ≡ any (λ g. lists (scope_list g scope) partition) gs
unfolding any_denies any_allows
any_allows-any scope partition [] h = refl
any_allows-any scope partition (g ∷ gs) h =
    let here : denies_scope g scope ≡ false = ground arith in
    let rest : any_denies scope gs ≡ false = ground arith in
    rw here (
      ap₂ (λ a b. a || b) (scope_allows-lists (scope_list g scope) partition)
        (any_allows-any scope partition gs rest))

-- The returns of `can`, one behind the other, as one condition.
returns :
    (anonymous admin denies allowed default lists_it : Bool)
    → (denies ≡ false → allowed ≡ lists_it)
    → (if anonymous
        then false
        else if (if anonymous then false else admin)
        then true
        else if denies
        then false
        else if allowed
        then true
        else default)
      ≡ (not anonymous && (admin || (not denies && (lists_it || default))))
returns true admin denies allowed default lists_it h = refl
returns false true denies allowed default lists_it h = refl
returns false false true allowed default lists_it h = refl
returns false false false true default lists_it h = ap (λ b. b || default) (h refl)
returns false false false false default lists_it h = ap (λ b. b || default) (h refl)

-- `can` refuses an anonymous identity. It allows any other that has an administrator grant; and where
-- no grant of the identity denies the scope, it allows what one of its grants lists, and what the
-- default allows. It allows nothing else.
pub can-decision :
    (fold : ℕ → ℕ) (p : Policy) (id : Identity) (scope partition : Text)
    → can fold p id scope partition ≡ (not (is_anonymous id) && decision fold p id scope partition)
unfolding can is_admin denied matching
can-decision fold p id scope partition =
    let gs = p.bundle.grants in
    let mine = filter (λ g. matches fold g id) gs in
    returns (is_anonymous id) (any_admin fold id gs) (any_denies scope mine)
      (any_allows scope partition mine) (defaults_allows p.bundle.defaults scope)
      (any (λ g. lists (scope_list g scope) partition) mine) (any_allows-any scope partition mine)
    ∙ ap (λ b. not (is_anonymous id) && b)
        (ap₂ (λ a b. a || b) (any_admin-any fold id gs)
          (ap₂ (λ d l. not d && (l || defaults_allows p.bundle.defaults scope))
            (any_denies-any scope mine
              ∙ any-filter (λ g. matches fold g id) (λ g. has_text scope g.deny) gs)
            (any-filter (λ g. matches fold g id) (λ g. lists (scope_list g scope) partition) gs)))
