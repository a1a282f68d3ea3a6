-- ===== src/AwsBindings/Lookup.antt =====
-- PartitionForAWS of pkg/authz/policy/policy.go is a scan of the bindings by their specificity.
use monofs.Prelude.{
  ℕ, false, Option, none, some, List, [], ◌∷◌, Text, text_eq, trim_space, has_nul,
  has_nul-trim_space, ◌≡◌, refl, sym, ap₂, ◌∙◌,
}
use monofs.AwsBindings.{
  AwsBinding, empty_index, exact_key, index_from, index_aws_bindings, ◌or_else◌, non_empty, resolve,
  partition_for_aws,
}
use monofs.AwsBindings.Offers.{first_bound, for_both, in_region, index_from-field}
use monofs.AwsBindings.Steps.{exact_step, account_step, region_step, fallback_step, wildcard_step}

-- The lookup as a scan, from the most specific bindings to the least: those of the account and
-- region, of the whole account, of the region in any account, of everything.
unfoldable pub scan : List AwsBinding → Text → Text → Option Text
unfolding first_bound
scan bs [] [] = none
scan bs [] (r ∷ rs) =
    first_bound (λ account region. text_eq (r ∷ rs) region) bs
    or_else first_bound (for_both [] []) bs
scan bs (a ∷ a') region =
    first_bound (for_both (a ∷ a') region) bs
    or_else first_bound (for_both (a ∷ a') []) bs
    or_else first_bound (for_both [] region) bs
    or_else first_bound (for_both [] []) bs

exact_of :
    (bs : List AwsBinding) (a : ℕ) (a' : Text) (r : ℕ) (r' : Text)
    → has_nul (a ∷ a') ≡ false
    → has_nul (r ∷ r') ≡ false
    → (index_from empty_index bs).aws_exact (exact_key (a ∷ a') (r ∷ r'))
      ≡ first_bound (for_both (a ∷ a') (r ∷ r')) bs
exact_of bs a a' r r' ha hr =
    index_from-field (λ x. x.aws_exact (exact_key (a ∷ a') (r ∷ r'))) (for_both (a ∷ a') (r ∷ r'))
      (exact_step a a' r r' ha hr) empty_index bs

account_of :
    (bs : List AwsBinding) (a : ℕ) (a' : Text)
    → (index_from empty_index bs).aws_account (a ∷ a') ≡ first_bound (for_both (a ∷ a') []) bs
account_of bs a a' =
    index_from-field (λ x. x.aws_account (a ∷ a')) (for_both (a ∷ a') []) (account_step a a')
      empty_index bs

region_of :
    (bs : List AwsBinding) (r : ℕ) (r' : Text)
    → (index_from empty_index bs).aws_region (r ∷ r') ≡ first_bound (for_both [] (r ∷ r')) bs
region_of bs r r' =
    index_from-field (λ x. x.aws_region (r ∷ r')) (for_both [] (r ∷ r')) (region_step r r')
      empty_index bs

fallback_of :
    (bs : List AwsBinding) (r : ℕ) (r' : Text)
    → (index_from empty_index bs).aws_region_fallback (r ∷ r') ≡ first_bound (in_region (r ∷ r')) bs
fallback_of bs r r' =
    index_from-field (λ x. x.aws_region_fallback (r ∷ r')) (in_region (r ∷ r')) (fallback_step r r')
      empty_index bs

wildcard_of :
    (bs : List AwsBinding)
    → non_empty (index_from empty_index bs).aws_wildcard ≡ first_bound (for_both [] []) bs
wildcard_of bs =
    index_from-field (λ x. non_empty x.aws_wildcard) (for_both [] []) wildcard_step empty_index bs

or_else_twice : (o w : Option Text) → (o or_else o or_else w or_else w) ≡ (o or_else w)
or_else_twice none none = refl
or_else_twice none (some t) = refl
or_else_twice (some t) w = refl

-- What `resolve` reads in the index that the loop leaves.
resolve-scan :
    (bs : List AwsBinding) (a r : Text)
    → has_nul a ≡ false
    → has_nul r ≡ false
    → resolve (index_from empty_index bs) a r ≡ scan bs a r
unfolding resolve scan
resolve-scan bs [] [] ha hr = refl
resolve-scan bs [] (r ∷ r') ha hr = ap₂ (λ o w. o or_else w) (fallback_of bs r r') (wildcard_of bs)
resolve-scan bs (a ∷ a') [] ha hr =
    ap₂ (λ o w. o or_else w) (account_of bs a a') (wildcard_of bs)
    ∙ sym (or_else_twice (first_bound (for_both (a ∷ a') []) bs) (first_bound (for_both [] []) bs))
resolve-scan bs (a ∷ a') (r ∷ r') ha hr =
    ap₂ (λ o w. o or_else w) (exact_of bs a a' r r' ha hr)
      (ap₂ (λ o w. o or_else w) (account_of bs a a')
        (ap₂ (λ o w. o or_else w) (region_of bs r r') (wildcard_of bs)))

-- PartitionForAWS over the indexes is the scan of the bindings from the most specific to the least,
-- the first of equally specific ones being taken: those of the account and region, of the account in
-- any region, of the region in any account, and of everything. Without an account it takes the first
-- binding of the region, of whatever account. The account and the region asked for hold no NUL.
pub partition_for_aws-scan :
    (bs : List AwsBinding) (account region : Text)
    → has_nul account ≡ false
    → has_nul region ≡ false
    → partition_for_aws (index_aws_bindings bs) account region
      ≡ scan bs (trim_space account) (trim_space region)
unfolding partition_for_aws index_aws_bindings
partition_for_aws-scan bs account region ha hr =
    resolve-scan bs (trim_space account) (trim_space region) (has_nul-trim_space account ha)
      (has_nul-trim_space region hr)
