-- ===== src/Owners.antt =====
-- Owner references and OWNERS files: pkg/authz/owners.go. YAML is a parameter.
pub mod Printing
use monofs.Prelude.{
  ℕ, ◌+◌, Bool, true, false, not, Option, none, some, List, [], ◌∷◌, ◌++◌, length, ◌==◌,
  if◌then◌else◌, Text, codes, text_eq, trim_space, is_empty, Result, ok, err,
}
use monofs.Prelude.Int.{ℤ, pos, negsuc}

pub record OwnerRef : Type 0 where
  pub team : Text
  pub subject : Text

unfoldable pub is_team : OwnerRef → Bool
is_team r = not (is_empty r.team)

-- `String`.
unfoldable pub owner_string : OwnerRef → Text
unfolding is_team
owner_string r = if is_team r then codes "@" ++ r.team else r.subject

pub data OwnersError : Type 0 where
  yaml_error : OwnersError
  owners_version : ℤ → OwnersError
  empty_entry : OwnersError
  empty_team : Text → OwnersError
  no_owners : OwnersError

abbrev pub team_ref : Text → Text → Result OwnersError OwnerRef
team_ref raw [] = err (empty_team raw)
team_ref raw (c ∷ cs) = ok (record { team = c ∷ cs; subject = [] })

abbrev pub ref_of : Text → Text → Result OwnersError OwnerRef
ref_of raw [] = err empty_entry
ref_of raw (c ∷ cs) =
    if c == 64 then team_ref raw (trim_space cs) else ok (record { team = []; subject = c ∷ cs })

unfoldable pub parse_owner_ref : Text → Result OwnersError OwnerRef
unfolding trim_space
parse_owner_ref raw = ref_of raw (trim_space raw)

pub record OwnersFile : Type 0 where
  pub file_version : ℤ
  pub viewers : List OwnerRef
  pub ingesters : List OwnerRef
  pub maintainers : List OwnerRef

pub record OwnersYaml : Type 0 where
  pub yaml_version : ℤ
  pub yaml_viewers : List Text
  pub yaml_ingesters : List Text
  pub yaml_maintainers : List Text

-- The loop that stops at the first error.
abbrev pub cons_ref :
    Result OwnersError OwnerRef
    → Result OwnersError (List OwnerRef)
    → Result OwnersError (List OwnerRef)
cons_ref (err e) rs = err e
cons_ref (ok r) (err e) = err e
cons_ref (ok r) (ok rs) = ok (r ∷ rs)

unfoldable pub parse_list : List Text → Result OwnersError (List OwnerRef)
unfolding parse_owner_ref
parse_list [] = ok []
parse_list (t ∷ ts) = cons_ref (parse_owner_ref t) (parse_list ts)

abbrev pub is_one : ℤ → Bool
is_one (pos n) = n == 1
is_one (negsuc n) = false

abbrev pub owners_file :
    ℤ
    → Result OwnersError (List OwnerRef)
    → Result OwnersError (List OwnerRef)
    → Result OwnersError (List OwnerRef)
    → Result OwnersError OwnersFile
owners_file v (err e) is ms = err e
owners_file v (ok vs) (err e) ms = err e
owners_file v (ok vs) (ok is) (err e) = err e
owners_file v (ok vs) (ok is) (ok ms) =
    if length vs + length is + length ms == 0
    then err no_owners
    else ok (record { file_version = v; viewers = vs; ingesters = is; maintainers = ms })

abbrev pub owners_of_yaml : Option OwnersYaml → Result OwnersError OwnersFile
unfolding parse_list
owners_of_yaml none = err yaml_error
owners_of_yaml (some doc) =
    if is_one doc.yaml_version
    then owners_file doc.yaml_version (parse_list doc.yaml_viewers) (parse_list doc.yaml_ingesters)
        (parse_list doc.yaml_maintainers)
    else err (owners_version doc.yaml_version)

-- `ParseOwners`.
unfoldable pub parse_owners :
    {B : Type 0} → (B → Option OwnersYaml) → B → Result OwnersError OwnersFile
unfolding owners_of_yaml
parse_owners unmarshal bytes = owners_of_yaml (unmarshal bytes)
