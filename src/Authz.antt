-- ===== src/Authz.antt =====
-- Identities and roles: pkg/authz/authz.go.
use monofs.Prelude.{
  ℕ, Bool, false, not, ◌&&◌, ◌||◌, List, [], ◌∷◌, if◌then◌else◌, Text, codes, text_eq, is_empty,
  trim_space, equal_fold, has_text,
}

-- An `Action` is a string.
abbrev pub action_view : Text
action_view = codes "view"

abbrev pub action_ingest : Text
action_ingest = codes "ingest"

abbrev pub action_modify : Text
action_modify = codes "modify"

-- A `Role` is a string.
abbrev pub role_viewer : Text
role_viewer = codes "viewer"

abbrev pub role_ingester : Text
role_ingester = codes "ingester"

abbrev pub role_maintainer : Text
role_maintainer = codes "maintainer"

abbrev pub role_admin : Text
role_admin = codes "admin"

-- A key that is not in the map has the empty set of actions.
unfoldable pub role_actions : Text → List Text
role_actions r =
    if text_eq r role_viewer
    then action_view ∷ []
    else if text_eq r role_ingester
    then action_view ∷ action_ingest ∷ []
    else if text_eq r role_maintainer
    then action_view ∷ action_ingest ∷ action_modify ∷ []
    else if text_eq r role_admin
    then action_view ∷ action_ingest ∷ action_modify ∷ []
    else []

unfoldable pub allows : Text → Text → Bool
unfolding role_actions has_text
allows r action = has_text action (role_actions r)

unfoldable pub valid : Text → Bool
valid r =
    text_eq r role_viewer
    || text_eq r role_ingester
    || text_eq r role_maintainer
    || text_eq r role_admin

pub record Identity : Type 0 where
  pub subject : Text
  pub email : Text
  pub groups : List Text
  pub client_id : Text

unfoldable pub is_anonymous : Identity → Bool
is_anonymous id = is_empty id.subject && is_empty id.client_id

unfoldable pub any_group : (ℕ → ℕ) → Text → List Text → Bool
unfolding trim_space equal_fold
any_group fold group [] = false
any_group fold group (g ∷ gs) = equal_fold fold (trim_space g) group || any_group fold group gs

unfoldable pub has_group : (ℕ → ℕ) → Identity → Text → Bool
unfolding any_group trim_space
has_group fold id group =
    not (is_empty (trim_space group)) && any_group fold (trim_space group) id.groups

unfoldable pub principal_id : Identity → Text
principal_id id = if is_empty id.client_id then id.subject else id.client_id
