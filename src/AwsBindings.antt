-- ===== src/AwsBindings.antt =====
-- Which partition an AWS record belongs to: the binding indexes of pkg/authz/policy/policy.go. A Go
-- map is a function into Option; the nil maps of a policy with no bindings read as empty ones.
pub mod Offers
pub mod Steps
pub mod Lookup
use monofs.Prelude.{
  ℕ, Bool, true, false, ◌&&◌, Option, none, some, List, [], ◌∷◌, ◌++◌, if◌then◌else◌, Text, text_eq,
  is_empty, trim_space,
}

pub record AwsBinding : Type 0 where
  pub partition : Text
  pub account : Text
  pub region : Text

abbrev pub TextMap : Type 0
TextMap = Text → Option Text

pub record AwsIndex : Type 0 where
  pub aws_exact : TextMap
  pub aws_account : TextMap
  pub aws_region : TextMap
  pub aws_region_fallback : TextMap
  pub aws_wildcard : Text

abbrev pub empty_index : AwsIndex
empty_index = record {
  aws_exact = λ k. none;
  aws_account = λ k. none;
  aws_region = λ k. none;
  aws_region_fallback = λ k. none;
  aws_wildcard = [];
}

-- `if _, exists := m[key]; !exists { m[key] = value }`.
abbrev pub put_if : Option Text → Text → Text → TextMap → TextMap
put_if (some old) key value m = m
put_if none key value m = λ k. if text_eq k key then some value else m k

unfoldable pub put_absent : Text → Text → TextMap → TextMap
put_absent key value m = put_if (m key) key value m

-- `account + "\x00" + region`.
abbrev pub exact_key : Text → Text → Text
exact_key account region = account ++ 0 ∷ region

abbrev pub set_if_empty : Text → Text → Text
set_if_empty [] partition = partition
set_if_empty (c ∷ cs) partition = c ∷ cs

-- The body of the loop, on the trimmed partition, account and region.
unfoldable pub index_entry : Text → Text → Text → AwsIndex → AwsIndex
unfolding put_absent
index_entry [] account region x = x
index_entry (c ∷ p) [] [] x = record x { aws_wildcard = set_if_empty x.aws_wildcard (c ∷ p) }
index_entry (c ∷ p) [] (r ∷ rs) x = record x {
  aws_region = put_absent (r ∷ rs) (c ∷ p) x.aws_region;
  aws_region_fallback = put_absent (r ∷ rs) (c ∷ p) x.aws_region_fallback;
}
index_entry (c ∷ p) (a ∷ a') [] x = record x {
  aws_account = put_absent (a ∷ a') (c ∷ p) x.aws_account;
}
index_entry (c ∷ p) (a ∷ a') (r ∷ rs) x = record x {
  aws_exact = put_absent (exact_key (a ∷ a') (r ∷ rs)) (c ∷ p) x.aws_exact;
  aws_region_fallback = put_absent (r ∷ rs) (c ∷ p) x.aws_region_fallback;
}

unfoldable pub index_from : AwsIndex → List AwsBinding → AwsIndex
unfolding index_entry trim_space
index_from x [] = x
index_from x (b ∷ bs) =
    index_from (index_entry (trim_space b.partition) (trim_space b.account) (trim_space b.region) x)
      bs

unfoldable pub index_aws_bindings : List AwsBinding → AwsIndex
unfolding index_from
index_aws_bindings bs = index_from empty_index bs

infixr 30 ◌or_else◌
abbrev pub ◌or_else◌ : Option Text → Option Text → Option Text
some t or_else o = some t
none or_else o = o

abbrev pub non_empty : Text → Option Text
non_empty [] = none
non_empty (c ∷ cs) = some (c ∷ cs)

-- The lookup behind the trimming of its arguments.
unfoldable pub resolve : AwsIndex → Text → Text → Option Text
resolve x [] [] = none
resolve x [] (r ∷ rs) = x.aws_region_fallback (r ∷ rs) or_else non_empty x.aws_wildcard
resolve x (a ∷ a') [] = x.aws_account (a ∷ a') or_else non_empty x.aws_wildcard
resolve x (a ∷ a') (r ∷ rs) =
    x.aws_exact (exact_key (a ∷ a') (r ∷ rs))
    or_else x.aws_account (a ∷ a')
    or_else x.aws_region (r ∷ rs)
    or_else non_empty x.aws_wildcard

unfoldable pub partition_for_aws : AwsIndex → Text → Text → Option Text
unfolding resolve trim_space
partition_for_aws x account region = resolve x (trim_space account) (trim_space region)
