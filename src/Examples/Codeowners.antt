-- ===== src/Examples/Codeowners.antt =====
-- CODEOWNERS rules of pkg/authz/codeowners.go on a few paths.
use monofs.Prelude.{true, some, List, [], ◌∷◌, codes, trim, trim_space, ◌≡◌, refl, ok, err}
use monofs.Owners.{OwnerRef, parse_owner_ref, owner_string}
use monofs.Codeowners.{
  CodeownersRule, match_segment, codeowners_pattern_matches, owners_for, fields, parse_codeowners,
  too_few_fields,
}
use monofs.Owners.Printing.{parse_owner_ref-owner_string}
use monofs.Codeowners.Globs.{glob, match_segment-glob}
use monofs.Codeowners.Rules.{IsLastMatch, owners_for-IsLastMatch}

abbrev docs_team : OwnerRef
docs_team = record { team = codes "docs"; subject = [] }

abbrev ann : OwnerRef
ann = record { team = []; subject = codes "ann" }

abbrev rules : List CodeownersRule
rules =
    record { pattern = codes "*.md"; owners = docs_team ∷ [] }
    ∷ record { pattern = codes "/src/**/api/"; owners = ann ∷ [] }
    ∷ []

team_parses : parse_owner_ref (codes " @docs ") ≡ ok docs_team
unfolding parse_owner_ref
team_parses = refl

words : fields (codes " a  bc ") ≡ codes "a" ∷ codes "bc" ∷ []
unfolding fields
words = refl

later_rule_wins : owners_for (some rules) (codes "src/a/b/api/x.md") ≡ ann ∷ []
unfolding owners_for codeowners_pattern_matches
later_rule_wins = refl

any_directory : owners_for (some rules) (codes "/lib/x.md") ≡ docs_team ∷ []
unfolding owners_for codeowners_pattern_matches
any_directory = refl

-- An anchored star is a catch-all, below directories too.
anchored_star : codeowners_pattern_matches (codes "/*") (codes "a/b") ≡ true
unfolding codeowners_pattern_matches
anchored_star = refl

match_segment-glob_example :
    match_segment (codes "a*?c") (codes "abbc") ≡ glob (codes "a*?c") (codes "abbc")
match_segment-glob_example = match_segment-glob (codes "a*?c") (codes "abbc")

owners_for-IsLastMatch_example :
    IsLastMatch rules
      (trim 47 (trim_space (codes "/lib/x.md")))
      (owners_for (some rules) (codes "/lib/x.md"))
owners_for-IsLastMatch_example = owners_for-IsLastMatch rules (codes "/lib/x.md")

two_rules : parse_codeowners (codes "# owners\n*.md @docs\n\n/src/**/api/ ann\n") ≡ ok rules
unfolding parse_codeowners
two_rules = refl

pattern_alone : parse_codeowners (codes "*.md @docs\n*.go") ≡ err (too_few_fields 2)
unfolding parse_codeowners
pattern_alone = refl

parse_owner_ref-owner_string_example : parse_owner_ref (owner_string docs_team) ≡ ok docs_team
parse_owner_ref-owner_string_example =
    parse_owner_ref-owner_string (codes " @docs ") docs_team team_parses
