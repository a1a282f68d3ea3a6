-- ===== src/Policy/Visible.antt =====
-- VisiblePartitions of pkg/authz/policy/policy.go lists what CanSeePartition allows.
use monofs.Prelude.{
  ℕ, Bool, true, false, not, ◌&&◌, ◌||◌, Option, none, some, List, [], ◌∷◌, any, if◌then◌else◌,
  Text, codes, text_eq, has_text, insert_text, has_text-insert_text, Bool-cases, ◌≡◌, refl, sym, ap,
  ◌∙◌, inl, inr, arith,
}
use monofs.Authz.{Identity, is_anonymous}
use monofs.Grants.{Grant, scope_partitions, defaults_allows}
use monofs.Policy.{
  Policy, any_denies, any_allows, any_admin, see_names, see_grants, visibility, matching, is_admin,
  denied, can, can_see_partition, visible_partitions,
}
use monofs.Policy.Decisions.{lists, any_allows-any}

-- Whether a listing shows a partition.
abbrev pub shows : List Text × Bool → Text → Bool
shows (names, everything) partition = everything || has_text partition names

or_false : (b : Bool) → (b || false) ≡ b
or_false true = refl
or_false false = refl

abbrev shown : Option (List Text) → Text → Bool
shown o partition = shows (visibility o) partition

shown-see_names :
    (names seen : List Text) (partition : Text)
    → shown (see_names names seen) partition ≡ (lists names partition || has_text partition seen)
unfolding has_text
shown-see_names [] seen partition = refl
shown-see_names (name ∷ names) seen partition = elim (Bool-cases (text_eq name (codes "*"))) [
  | inl t ↦ rw t refl
  | inr f ↦ rw f (
      shown-see_names names (insert_text name seen) partition
      ∙ ap (λ b. lists names partition || b) (has_text-insert_text partition name seen)
      ∙ ground arith)
]

-- Going on with what a grant leaves.
or_none : (a r h : Bool) → true ≡ (a || h) → true ≡ ((a || r) || h)
or_none a r h e = ground arith

or_some : (a r h s : Bool) → s ≡ (a || h) → (r || s) ≡ ((a || r) || h)
or_some a r h s e = ground arith

goes_on :
    (gs : List Grant) (partition : Text) (here there : Bool) (o : Option (List Text))
    → shown o partition ≡ (here || there)
    → ((seen : List Text)
        → shown (see_grants gs seen) partition
          ≡ (any (λ g. lists g.partitions partition) gs || has_text partition seen))
    → shown (elim o [ none ↦ none | some seen ↦ see_grants gs seen ]) partition
      ≡ ((here || any (λ g. lists g.partitions partition) gs) || there)
goes_on gs partition here there none e ih = or_none here _ there e
goes_on gs partition here there (some seen) e ih =
    ih seen ∙ or_some here _ there (has_text partition seen) e

shown-see_grants :
    (gs : List Grant) (seen : List Text) (partition : Text)
    → shown (see_grants gs seen) partition
      ≡ (any (λ g. lists g.partitions partition) gs || has_text partition seen)
unfolding see_grants
shown-see_grants [] seen partition = refl
shown-see_grants (g ∷ gs) seen partition =
    goes_on gs partition (lists g.partitions partition) (has_text partition seen)
      (see_names g.partitions seen) (shown-see_names g.partitions seen partition)
      (λ seen'. shown-see_grants gs seen' partition)

-- The returns of VisiblePartitions beside those of `can`.
shows-returns :
    (anonymous admin denies allowed default : Bool) (o : Option (List Text)) (partition : Text)
    → (denies ≡ false → allowed ≡ shown o partition)
    → (if anonymous
        then false
        else if (if anonymous then false else admin)
        then true
        else if denies
        then false
        else if allowed
        then true
        else default)
      ≡ (shows
            (if anonymous
              then ([], false)
              else if (if anonymous then false else admin)
              then ([], true)
              else if denies
              then ([], false)
              else visibility o)
            partition
          || (not anonymous && (not denies && default)))
unfolding has_text
shows-returns true admin denies allowed default o partition h = refl
shows-returns false true denies allowed default o partition h = refl
shows-returns false false true allowed default o partition h = refl
shows-returns false false false true default o partition h = ap (λ b. b || default) (h refl)
shows-returns false false false false default o partition h = ap (λ b. b || default) (h refl)

-- CanSeePartition allows exactly the partitions that VisiblePartitions lists, or all where it says
-- so, and besides them, for an identity that is not anonymous and that no grant denies, those that
-- the default allows: the listing leaves out the default.
pub can_see_partition-visible_partitions :
    (fold : ℕ → ℕ) (p : Policy) (id : Identity) (partition : Text)
    → can_see_partition fold p id partition ≡ (
        shows (visible_partitions fold p id) partition
        || (not (is_anonymous id)
            && (not (denied fold p id scope_partitions) && p.bundle.defaults.partitions)))
unfolding can_see_partition can is_admin denied visible_partitions defaults_allows text_eq
can_see_partition-visible_partitions fold p id partition =
    let mine = matching fold p id in
    shows-returns (is_anonymous id) (any_admin fold id p.bundle.grants)
      (any_denies scope_partitions mine) (any_allows scope_partitions partition mine)
      p.bundle.defaults.partitions (see_grants mine []) partition
      (λ e.
        any_allows-any scope_partitions partition mine e
        ∙ sym (or_false _)
        ∙ sym (shown-see_grants mine [] partition))
