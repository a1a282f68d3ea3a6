-- ===== src/Grants.antt =====
-- Grants and what one grant says: pkg/authz/policy/policy.go. `fold` is the case folding of
-- strings.EqualFold.
use monofs.Prelude.{
  ℕ, Bool, false, not, ◌&&◌, ◌||◌, List, [], ◌∷◌, if◌then◌else◌, Text, codes, text_eq, is_empty,
  equal_fold, has_text,
}
use monofs.Authz.{
  Identity, is_anonymous, has_group, role_viewer, role_ingester, role_maintainer, role_admin,
}

abbrev pub scope_partitions : Text
scope_partitions = codes "partitions"

abbrev pub scope_logs : Text
scope_logs = codes "logs"

abbrev pub scope_traces : Text
scope_traces = codes "traces"

abbrev pub scope_monofs : Text
scope_monofs = codes "monofs"

-- A `Signal` is a string.
abbrev pub signal_metrics : Text
signal_metrics = codes "metrics"

abbrev pub signal_logs : Text
signal_logs = codes "logs"

abbrev pub signal_traces : Text
signal_traces = codes "traces"

pub record Defaults : Type 0 where
  pub partitions : Bool
  pub logs : Bool
  pub traces : Bool
  pub monofs_paths : Bool

unfoldable pub defaults_allows : Defaults → Text → Bool
defaults_allows d scope =
    if text_eq scope scope_partitions
    then d.partitions
    else if text_eq scope scope_logs
    then d.logs
    else if text_eq scope scope_traces
    then d.traces
    else if text_eq scope scope_monofs
    then d.monofs_paths
    else false

pub record Grant : Type 0 where
  pub group : Text
  pub user : Text
  pub client : Text
  pub partitions : List Text
  pub logs : List Text
  pub traces : List Text
  pub monofs_paths : List Text
  pub role : Text
  pub deny : List Text

unfoldable pub denies_scope : Grant → Text → Bool
unfolding has_text
denies_scope g scope = has_text scope g.deny

unfoldable pub scope_allows : List Text → Text → Bool
scope_allows [] name = false
scope_allows (item ∷ items) name =
    (text_eq item (codes "*") || text_eq item name) || scope_allows items name

-- `Grant.matches`, of which `matches_user` is the case of a user.
abbrev pub matches_user : (ℕ → ℕ) → Grant → Identity → Bool
matches_user fold g id =
    (not (is_empty id.subject) && text_eq g.user id.subject)
    || (not (is_empty id.email) && equal_fold fold g.user id.email)

unfoldable pub matches : (ℕ → ℕ) → Grant → Identity → Bool
unfolding is_anonymous has_group equal_fold
matches fold g id =
    if is_anonymous id
    then false
    else if not (is_empty g.client)
    then not (is_empty id.client_id) && text_eq g.client id.client_id
    else if not (is_empty g.user)
    then matches_user fold g id
    else if not (is_empty g.group)
    then has_group fold id g.group
    else false

-- The list of a scope in a grant; of no list in any other scope.
abbrev pub scope_list : Grant → Text → List Text
scope_list g scope =
    if text_eq scope scope_partitions
    then g.partitions
    else if text_eq scope scope_logs
    then g.logs
    else if text_eq scope scope_traces
    then g.traces
    else []

unfoldable pub role_rank : Text → ℕ
role_rank r =
    if text_eq r role_viewer
    then 1
    else if text_eq r role_ingester
    then 2
    else if text_eq r role_maintainer
    then 3
    else if text_eq r role_admin
    then 4
    else 0
