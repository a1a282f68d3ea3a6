-- ===== src/GrantStore.antt =====
-- Grants on partitions and the store that keeps them in a file: pkg/authz/grants.go. The lock
-- serialises the methods. JSON is a parameter, and so is what the operating system lets succeed; of
-- the disk only the file and its temporary copy are modelled. `fold` is the case folding of strings.EqualFold.
pub mod Validity
pub mod Persistence
use monofs.Prelude.{
  ℕ, Bool, true, false, not, ◌&&◌, ◌||◌, Option, none, some, List, [], ◌∷◌, ◌++◌, Result, ok, err,
  any, if◌then◌else◌, Text, codes, text_eq, is_empty, trim_space,
}
use monofs.Authz.{Identity, is_anonymous, has_group, valid, allows}

pub record Grant : Type 0 where
  pub subject : Text
  pub group : Text
  pub partition : Text
  pub role : Text

pub data GrantError : Type 0 where
  subject_or_group : GrantError
  no_partition : GrantError
  invalid_role : Text → GrantError
  mkdir_failed : GrantError
  read_failed : GrantError
  decode_failed : GrantError
  encode_failed : GrantError
  write_failed : GrantError
  replace_failed : GrantError

abbrev pub same : Bool → Bool → Bool
same true b = b
same false b = not b

-- A nil error is `none`.
unfoldable pub validate : Grant → Option GrantError
unfolding valid trim_space
validate g =
    if same (not (is_empty (trim_space g.subject))) (not (is_empty (trim_space g.group)))
    then some subject_or_group
    else if is_empty (trim_space g.partition)
    then some no_partition
    else if not (valid g.role)
    then some (invalid_role g.role)
    else none

unfoldable pub matches_partition : Grant → Text → Bool
matches_partition g partition = text_eq g.partition (codes "*") || text_eq g.partition partition

unfoldable pub matches_identity : (ℕ → ℕ) → Grant → Identity → Bool
unfolding has_group trim_space
matches_identity fold g id =
    let s = trim_space g.subject in
    let grp = trim_space g.group in
    if not (is_empty s)
    then text_eq s id.subject
      || text_eq s id.client_id
      || (not (is_empty id.email) && text_eq s id.email)
    else if not (is_empty grp)
    then has_group fold id grp
    else false

pub record GrantStore : Type 0 where
  pub grants : List Grant
  pub persist_path : Text

-- The file at `persistPath`, and the one at `persistPath + ".tmp"`.
pub record Disk : Type 0 where
  pub file : Option (List ℕ)
  pub tmp : Option (List ℕ)

-- How os.WriteFile and os.Rename end; a write that fails can leave anything.
pub data Outcome : Type 0 where
  write_fails : Option (List ℕ) → Outcome
  rename_fails : Outcome
  succeeds : Outcome

pub record GrantsJson : Type 0 where
  pub marshal_indent : List Grant → Option (List ℕ)
  pub unmarshal : List ℕ → Option (List Grant)

abbrev pub replace_file : Outcome → List ℕ → Disk → Disk × Option GrantError
replace_file (write_fails left) bytes d = (record d { tmp = left }, some write_failed)
replace_file rename_fails bytes d = (record d { tmp = some bytes }, some replace_failed)
replace_file succeeds bytes d = (record { file = some bytes; tmp = none }, none)

abbrev pub save_bytes : Outcome → Option (List ℕ) → Disk → Disk × Option GrantError
save_bytes outcome none d = (d, some encode_failed)
save_bytes outcome (some bytes) d = replace_file outcome bytes d

abbrev pub first_error : Option GrantError → Option GrantError → Option GrantError
first_error (some e) later = some e
first_error none later = later

unfoldable pub first_invalid : List Grant → Option GrantError
unfolding validate
first_invalid [] = none
first_invalid (g ∷ gs) = first_error (validate g) (first_invalid gs)

module _ (json : GrantsJson) where
  unfoldable pub save_locked : Outcome → GrantStore → Disk → Disk × Option GrantError
  save_locked outcome s d =
      if is_empty s.persist_path
      then (d, none)
      else save_bytes outcome (json.marshal_indent s.grants) d

  -- The grants are set, and then saved; an error of the saving does not take them back.
  abbrev pub set_and_save :
      Outcome → List Grant → GrantStore → Disk → GrantStore × (Disk × Option GrantError)
  unfolding save_locked
  set_and_save outcome grants s d =
      (record s { grants = grants }, save_locked outcome (record s { grants = grants }) d)

  -- Nothing happens after an error of the validation.
  abbrev pub unless_invalid :
      Option GrantError
      → Outcome
      → List Grant
      → GrantStore
      → Disk
      → GrantStore × (Disk × Option GrantError)
  unfolding set_and_save
  unless_invalid (some e) outcome grants s d = (s, (d, some e))
  unless_invalid none outcome grants s d = set_and_save outcome grants s d

  unfoldable pub add : Outcome → Grant → GrantStore → Disk → GrantStore × (Disk × Option GrantError)
  unfolding unless_invalid validate
  add outcome g s d = unless_invalid (validate g) outcome (s.grants ++ g ∷ []) s d

  unfoldable pub replace :
      Outcome → List Grant → GrantStore → Disk → GrantStore × (Disk × Option GrantError)
  unfolding unless_invalid first_invalid
  replace outcome grants s d = unless_invalid (first_invalid grants) outcome grants s d

  abbrev pub load_decoded : Option (List Grant) → GrantStore → Result GrantError GrantStore
  load_decoded none s = err decode_failed
  load_decoded (some grants) s = ok (record s { grants = grants })

  abbrev pub load_file : Option (List ℕ) → GrantStore → Result GrantError GrantStore
  load_file none s = ok s
  load_file (some bytes) s = load_decoded (json.unmarshal bytes) s

  -- `mkdir_fails` and `read_fails` say how os.MkdirAll and os.ReadFile end, where the latter fails
  -- for another reason than that there is no file.
  unfoldable pub new_grant_store : Bool → Bool → Text → Disk → Result GrantError GrantStore
  unfolding trim_space
  new_grant_store mkdir_fails read_fails persist_path d =
      let s : GrantStore = record { grants = []; persist_path = trim_space persist_path } in
      if is_empty s.persist_path
      then ok s
      else if mkdir_fails
      then err mkdir_failed
      else if read_fails
      then err read_failed
      else load_file d.file s

unfoldable pub any_grants : (ℕ → ℕ) → Identity → Text → Text → List Grant → Bool
unfolding matches_partition matches_identity allows
any_grants fold id partition action [] = false
any_grants fold id partition action (g ∷ gs) =
    (matches_partition g partition && (matches_identity fold g id && allows g.role action))
    || any_grants fold id partition action gs

-- `GrantStore.Can`.
unfoldable pub can_act : (ℕ → ℕ) → GrantStore → Identity → Text → Text → Bool
unfolding any_grants is_anonymous
can_act fold s id partition action =
    if is_anonymous id then false else any_grants fold id partition action s.grants
