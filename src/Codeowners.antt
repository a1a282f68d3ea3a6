-- ===== src/Codeowners.antt =====
-- CODEOWNERS files: pkg/authz/codeowners.go. A string is the list of its code points, which are the
-- runes that the matcher goes by.
pub mod Globs
pub mod Rules
use monofs.Prelude.{
  ℕ, suc, ◌+◌, Bool, true, false, not, ◌&&◌, ◌||◌, Option, none, some, List, [], ◌∷◌, ◌++◌, any,
  length, ltb, ◌==◌, if◌then◌else◌, Text, codes, text_eq, trim, has_prefix, split, join, last_is,
  trim_space, is_space, is_empty, Result, ok, err,
}
use monofs.Owners.{OwnerRef, OwnersError, parse_list}

pub record CodeownersRule : Type 0 where
  pub pattern : Text
  pub owners : List OwnerRef

-- `strings.Fields`.
abbrev pub add_word : Text → List Text → List Text
add_word [] ws = ws
add_word (c ∷ w) ws = (c ∷ w) ∷ ws

unfoldable pub words_from : Text → Text × List Text
words_from [] = ([], [])
words_from (c ∷ s) =
    let (w, ws) = words_from s in if is_space c then ([], add_word w ws) else (c ∷ w, ws)

unfoldable pub fields : Text → List Text
unfolding words_from
fields s = let (w, ws) = words_from s in add_word w ws

-- The matcher of one segment: for each length of the segment's beginning, whether the pattern so far
-- matches it.
abbrev pub none_yet : Text → List Bool
none_yet [] = []
none_yet (c ∷ s) = false ∷ none_yet s

unfoldable pub cover : Bool → List Bool → List Bool
cover covered [] = []
cover covered (d ∷ dp) = (covered || d) ∷ cover (covered || d) dp

unfoldable pub advance_any : List Bool → Text → List Bool
advance_any [] s = []
advance_any (d ∷ dp) [] = []
advance_any (d ∷ dp) (c ∷ s) = d ∷ advance_any dp s

unfoldable pub advance : ℕ → List Bool → Text → List Bool
advance p [] s = []
advance p (d ∷ dp) [] = []
advance p (d ∷ dp) (c ∷ s) = (d && c == p) ∷ advance p dp s

unfoldable pub next_row : ℕ → List Bool → Text → List Bool
unfolding cover advance_any advance
next_row p dp s =
    if p == 42
    then cover false dp
    else if p == 63
    then false ∷ advance_any dp s
    else false ∷ advance p dp s

unfoldable pub match_rows : Text → List Bool → Text → List Bool
unfolding next_row
match_rows [] dp s = dp
match_rows (p ∷ ps) dp s = match_rows ps (next_row p dp s) s

abbrev pub last_bool : List Bool → Bool
last_bool [] = false
last_bool (d ∷ []) = d
last_bool (d ∷ e ∷ dp) = last_bool (e ∷ dp)

-- `codeownersMatchSegment`.
unfoldable pub match_segment : Text → Text → Bool
unfolding match_rows
match_segment pattern segment = last_bool (match_rows pattern (true ∷ none_yet segment) segment)

-- Whether a test passes on what is left behind some beginning.
abbrev pub any_rest {ℓ} : {A : Type ℓ} → (List A → Bool) → List A → Bool
any_rest f [] = f []
any_rest f (x ∷ xs) = f (x ∷ xs) || any_rest f xs

abbrev pub match_head : (List Text → Bool) → Text → List Text → Bool
unfolding match_segment
match_head rest p [] = false
match_head rest p (s ∷ ss) = match_segment p s && rest ss

abbrev pub is_nil {ℓ} : {A : Type ℓ} → List A → Bool
is_nil [] = true
is_nil (x ∷ xs) = false

-- `codeownersMatchSegments`.
unfoldable pub match_segments : List Text → List Text → Bool
unfolding match_head text_eq
match_segments [] ss = is_nil ss
match_segments (p ∷ ps) ss =
    if text_eq p (codes "**")
    then any_rest (λ r. match_segments ps r) ss
    else match_head (λ r. match_segments ps r) p ss

-- `codeownersGlobMatch`.
unfoldable pub glob_match : Text → Text → Bool
unfolding match_segments split
glob_match pattern path = match_segments (split 47 pattern) (split 47 path)

-- The loop over the path and the paths below its directories.
abbrev pub any_suffix : (Text → Bool) → List Text → Bool
unfolding join
any_suffix f [] = false
any_suffix f (s ∷ ss) = f (join 47 (s ∷ ss)) || any_suffix f ss

abbrev pub is_wildcard : ℕ → Bool
is_wildcard c = c == 42 || c == 63

abbrev pub names_path : Text → Text → Bool
unfolding text_eq has_prefix
names_path pattern path = text_eq path pattern || has_prefix path (pattern ++ codes "/")

-- The cases of a pattern without slashes around it.
unfoldable pub match_trimmed : Bool → Text → Text → Bool
unfolding names_path any_suffix glob_match
match_trimmed anchored pattern path =
    if text_eq pattern (codes "*") || text_eq pattern (codes "**")
    then true
    else if not (is_empty pattern) && not (any is_wildcard pattern)
    then (if anchored
        then names_path pattern path
        else any_suffix (names_path pattern) (split 47 path))
    else if anchored
    then glob_match pattern path
    else any_suffix (glob_match pattern) (split 47 path)

abbrev pub directory_pattern : Text → Text
unfolding trim
directory_pattern pattern = if last_is 47 pattern then trim 47 pattern ++ codes "/**" else pattern

abbrev pub match_spaceless : Text → Text → Bool
unfolding match_trimmed directory_pattern has_prefix
match_spaceless pattern path =
    if is_empty pattern || is_empty path
    then false
    else match_trimmed (has_prefix pattern (codes "/")) (trim 47 (directory_pattern pattern)) path

-- `CodeownersPatternMatches`.
unfoldable pub codeowners_pattern_matches : Text → Text → Bool
unfolding match_spaceless trim_space trim
codeowners_pattern_matches pattern path =
    match_spaceless (trim_space pattern) (trim 47 (trim_space path))

abbrev pub owners_from : List OwnerRef → List CodeownersRule → Text → List OwnerRef
owners_from matched [] path = matched
owners_from matched (r ∷ rs) path =
    owners_from (if codeowners_pattern_matches r.pattern path then r.owners else matched) rs path

-- `OwnersFor`; a nil file is none.
unfoldable pub owners_for : Option (List CodeownersRule) → Text → List OwnerRef
owners_for none path = []
owners_for (some rules) path = owners_from [] rules (trim 47 (trim_space path))

-- Errors with the number of the line.
pub data CodeownersError : Type 0 where
  too_few_fields : ℕ → CodeownersError
  bad_owner : ℕ → OwnersError → CodeownersError
  no_rules : CodeownersError

abbrev pub owners_on :
    ℕ → Result OwnersError (List OwnerRef) → Text → Result CodeownersError CodeownersRule
owners_on line (err e) pattern = err (bad_owner line e)
owners_on line (ok owners) pattern = ok (record { pattern = pattern; owners = owners })

-- The fields of a line; strings.Fields returns no empty one.
abbrev pub parse_fields : ℕ → List Text → Result CodeownersError CodeownersRule
unfolding parse_list
parse_fields line [] = err (too_few_fields line)
parse_fields line (pattern ∷ []) = err (too_few_fields line)
parse_fields line (pattern ∷ owner ∷ owners) = owners_on line (parse_list (owner ∷ owners)) pattern

abbrev pub add_rule :
    Result CodeownersError CodeownersRule
    → Result CodeownersError (List CodeownersRule)
    → Result CodeownersError (List CodeownersRule)
add_rule (err e) rules = err e
add_rule (ok r) (err e) = err e
add_rule (ok r) (ok rules) = ok (r ∷ rules)

-- The loop over the lines, which are numbered from 1.
unfoldable pub parse_lines : ℕ → List Text → Result CodeownersError (List CodeownersRule)
unfolding parse_fields fields trim_space has_prefix
parse_lines line [] = ok []
parse_lines line (raw ∷ lines) =
    let text = trim_space raw in
    let rest = parse_lines (suc line) lines in
    if is_empty text || has_prefix text (codes "#")
    then rest
    else add_rule (parse_fields line (fields text)) rest

abbrev pub some_rules :
    Result CodeownersError (List CodeownersRule) → Result CodeownersError (List CodeownersRule)
some_rules (err e) = err e
some_rules (ok []) = err no_rules
some_rules (ok (r ∷ rules)) = ok (r ∷ rules)

-- `ParseCodeowners`.
unfoldable pub parse_codeowners : Text → Result CodeownersError (List CodeownersRule)
unfolding parse_lines split
parse_codeowners text = some_rules (parse_lines 1 (split 10 text))
