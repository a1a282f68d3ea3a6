-- ===== src/Policy.antt =====
-- Access decisions over a compiled policy bundle: pkg/authz/policy/policy.go. A nil *Policy, which
-- allows nothing, is left out. `fold` is the case folding of strings.EqualFold.
pub mod Decisions
pub mod Visible
pub mod Roles
use monofs.Prelude.{
  ℕ, Bool, true, false, not, ◌&&◌, ◌||◌, Option, none, some, List, [], ◌∷◌, filter, ltb,
  if◌then◌else◌, Text, codes, text_eq, is_empty, insert_text,
}
use monofs.Authz.{Identity, is_anonymous, role_admin}
use monofs.Grants.{
  scope_partitions, scope_logs, scope_traces, signal_metrics, signal_logs, signal_traces, Defaults,
  defaults_allows, Grant, denies_scope, scope_allows, matches, scope_list, role_rank,
}
use monofs.AwsBindings.{AwsBinding, AwsIndex, index_aws_bindings}

pub record Bundle : Type 0 where
  pub format_version : ℕ
  pub version : Text
  pub generated_at : Text
  pub defaults : Defaults
  pub grants : List Grant
  pub aws_bindings : List AwsBinding
  pub catalog_digest : Text

pub record Policy : Type 0 where
  pub bundle : Bundle
  pub index : AwsIndex

unfoldable pub new : Bundle → Policy
unfolding index_aws_bindings
new bundle = record { bundle = bundle; index = index_aws_bindings bundle.aws_bindings }

unfoldable pub any_denies : Text → List Grant → Bool
unfolding denies_scope
any_denies scope [] = false
any_denies scope (g ∷ gs) = denies_scope g scope || any_denies scope gs

-- The loop of `can` over the matching grants.
unfoldable pub any_allows : Text → Text → List Grant → Bool
unfolding denies_scope scope_allows
any_allows scope partition [] = false
any_allows scope partition (g ∷ gs) =
    (not (denies_scope g scope) && scope_allows (scope_list g scope) partition)
    || any_allows scope partition gs

unfoldable pub any_admin : (ℕ → ℕ) → Identity → List Grant → Bool
unfolding matches
any_admin fold id [] = false
any_admin fold id (g ∷ gs) =
    (text_eq g.role role_admin && matches fold g id) || any_admin fold id gs

-- One round of the loop of `Role`.
abbrev pub better_role : Grant → Text → Text → Text
better_role g partition best =
    if is_empty g.role || denies_scope g scope_partitions
    then best
    else if not (scope_allows g.partitions partition)
    then best
    else if ltb (role_rank best) (role_rank g.role)
    then g.role
    else best

unfoldable pub best_role : Text → Text → List Grant → Text
unfolding role_rank denies_scope scope_allows
best_role partition best [] = best
best_role partition best (g ∷ gs) = best_role partition (better_role g partition best) gs

-- The loop of `VisiblePartitions`: `none` where a grant lists everything, else `seen`, sorted.
abbrev pub see_names : List Text → List Text → Option (List Text)
see_names [] seen = some seen
see_names (name ∷ names) seen =
    if text_eq name (codes "*") then none else see_names names (insert_text name seen)

unfoldable pub see_grants : List Grant → List Text → Option (List Text)
unfolding insert_text
see_grants [] seen = some seen
see_grants (g ∷ gs) seen = elim (see_names g.partitions seen) [
  | none ↦ none
  | some seen' ↦ see_grants gs seen'
]

abbrev pub visibility : Option (List Text) → List Text × Bool
visibility none = ([], true)
visibility (some names) = (names, false)

module _ (fold : ℕ → ℕ) where
  unfoldable pub matching : Policy → Identity → List Grant
  unfolding matches
  matching p id = filter (λ g. matches fold g id) p.bundle.grants

  unfoldable pub is_admin : Policy → Identity → Bool
  unfolding any_admin is_anonymous
  is_admin p id = if is_anonymous id then false else any_admin fold id p.bundle.grants

  unfoldable pub denied : Policy → Identity → Text → Bool
  unfolding any_denies matching
  denied p id scope = any_denies scope (matching p id)

  unfoldable pub can : Policy → Identity → Text → Text → Bool
  unfolding is_anonymous is_admin denied matching any_allows defaults_allows
  can p id scope partition =
      if is_anonymous id
      then false
      else if is_admin p id
      then true
      else if denied p id scope
      then false
      else if any_allows scope partition (matching p id)
      then true
      else defaults_allows p.bundle.defaults scope

  unfoldable pub can_see_partition : Policy → Identity → Text → Bool
  unfolding can
  can_see_partition p id partition = can p id scope_partitions partition

  unfoldable pub can_read_signal : Policy → Identity → Text → Text → Bool
  unfolding can
  can_read_signal p id partition signal =
      if text_eq signal signal_metrics
      then true
      else if text_eq signal signal_logs
      then can p id scope_logs partition
      else if text_eq signal signal_traces
      then can p id scope_traces partition
      else false

  unfoldable pub role_of : Policy → Identity → Text → Text
  unfolding is_anonymous matching best_role
  role_of p id partition = if is_anonymous id then [] else best_role partition [] (matching p id)

  unfoldable pub visible_partitions : Policy → Identity → List Text × Bool
  unfolding is_anonymous is_admin denied matching see_grants
  visible_partitions p id =
      if is_anonymous id
      then ([], false)
      else if is_admin p id
      then ([], true)
      else if denied p id scope_partitions
      then ([], false)
      else visibility (see_grants (matching p id) [])

  unfoldable pub resolve_visible_partitions : Policy → Identity → List Text → List Text
  unfolding visible_partitions
  resolve_visible_partitions p id catalog =
      let (names, all) = visible_partitions p id in if all then catalog else names
