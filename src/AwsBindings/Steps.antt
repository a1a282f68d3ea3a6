-- ===== src/AwsBindings/Steps.antt =====
-- One round of the loop of indexAWSBindings in pkg/authz/policy/policy.go, map by map.
use monofs.Prelude.{
  ℕ, false, none, some, [], ◌∷◌, if◌then◌else◌, Text, text_eq, has_nul, ◌≡◌, refl, sym, ap, ◌∙◌,
}
use monofs.AwsBindings.{AwsIndex, exact_key, set_if_empty, index_entry, ◌or_else◌, non_empty}
use monofs.AwsBindings.Offers.{
  offered, for_both, in_region, or_else_none, put_absent-lookup, text_eq-exact_key, offers_nothing,
  adds_nothing, and_false, and_true, refused,
}

-- One round, part by part.
pub exact_step :
    (a : ℕ) (a' : Text) (r : ℕ) (r' : Text)
    → has_nul (a ∷ a') ≡ false
    → has_nul (r ∷ r') ≡ false
    → (p acc reg : Text) (x : AwsIndex)
    → (index_entry p acc reg x).aws_exact (exact_key (a ∷ a') (r ∷ r')) ≡ (
        x.aws_exact (exact_key (a ∷ a') (r ∷ r'))
        or_else offered (for_both (a ∷ a') (r ∷ r')) p acc reg)
unfolding index_entry offered text_eq
exact_step a a' r r' ha hr [] acc reg x =
    adds_nothing _ _ (offers_nothing (for_both (a ∷ a') (r ∷ r')) acc reg)
exact_step a a' r r' ha hr (c ∷ p) [] [] x = sym (or_else_none _)
exact_step a a' r r' ha hr (c ∷ p) [] (s ∷ s') x = sym (or_else_none _)
exact_step a a' r r' ha hr (c ∷ p) (d ∷ d') [] x =
    adds_nothing _ _ (refused (for_both (a ∷ a') (r ∷ r')) (c ∷ p) (d ∷ d') [] (and_false _))
exact_step a a' r r' ha hr (c ∷ p) (d ∷ d') (s ∷ s') x =
    put_absent-lookup (exact_key (d ∷ d') (s ∷ s')) (c ∷ p) x.aws_exact
      (exact_key (a ∷ a') (r ∷ r'))
    ∙ ap (λ t. x.aws_exact (exact_key (a ∷ a') (r ∷ r')) or_else (if t then some (c ∷ p) else none))
        (text_eq-exact_key (a ∷ a') (r ∷ r') (d ∷ d') (s ∷ s') ha hr)

pub account_step :
    (a : ℕ) (a' p acc reg : Text) (x : AwsIndex)
    → (index_entry p acc reg x).aws_account (a ∷ a')
      ≡ (x.aws_account (a ∷ a') or_else offered (for_both (a ∷ a') []) p acc reg)
unfolding index_entry offered text_eq
account_step a a' [] acc reg x = adds_nothing _ _ (offers_nothing (for_both (a ∷ a') []) acc reg)
account_step a a' (c ∷ p) [] [] x = sym (or_else_none _)
account_step a a' (c ∷ p) [] (s ∷ s') x = sym (or_else_none _)
account_step a a' (c ∷ p) (d ∷ d') [] x =
    put_absent-lookup (d ∷ d') (c ∷ p) x.aws_account (a ∷ a')
    ∙ ap (λ t. x.aws_account (a ∷ a') or_else (if t then some (c ∷ p) else none))
        (sym (and_true (text_eq (a ∷ a') (d ∷ d'))))
account_step a a' (c ∷ p) (d ∷ d') (s ∷ s') x =
    adds_nothing _ _ (refused (for_both (a ∷ a') []) (c ∷ p) (d ∷ d') (s ∷ s') (and_false _))

pub region_step :
    (r : ℕ) (r' p acc reg : Text) (x : AwsIndex)
    → (index_entry p acc reg x).aws_region (r ∷ r')
      ≡ (x.aws_region (r ∷ r') or_else offered (for_both [] (r ∷ r')) p acc reg)
unfolding index_entry offered text_eq
region_step r r' [] acc reg x = adds_nothing _ _ (offers_nothing (for_both [] (r ∷ r')) acc reg)
region_step r r' (c ∷ p) [] [] x = sym (or_else_none _)
region_step r r' (c ∷ p) [] (s ∷ s') x = put_absent-lookup (s ∷ s') (c ∷ p) x.aws_region (r ∷ r')
region_step r r' (c ∷ p) (d ∷ d') [] x = sym (or_else_none _)
region_step r r' (c ∷ p) (d ∷ d') (s ∷ s') x = sym (or_else_none _)

pub fallback_step :
    (r : ℕ) (r' p acc reg : Text) (x : AwsIndex)
    → (index_entry p acc reg x).aws_region_fallback (r ∷ r')
      ≡ (x.aws_region_fallback (r ∷ r') or_else offered (in_region (r ∷ r')) p acc reg)
unfolding index_entry offered text_eq
fallback_step r r' [] acc reg x = adds_nothing _ _ (offers_nothing (in_region (r ∷ r')) acc reg)
fallback_step r r' (c ∷ p) [] [] x = sym (or_else_none _)
fallback_step r r' (c ∷ p) [] (s ∷ s') x =
    put_absent-lookup (s ∷ s') (c ∷ p) x.aws_region_fallback (r ∷ r')
fallback_step r r' (c ∷ p) (d ∷ d') [] x = sym (or_else_none _)
fallback_step r r' (c ∷ p) (d ∷ d') (s ∷ s') x =
    put_absent-lookup (s ∷ s') (c ∷ p) x.aws_region_fallback (r ∷ r')

non_empty-set_if_empty :
    (w : Text) (c : ℕ) (p : Text)
    → non_empty (set_if_empty w (c ∷ p)) ≡ (non_empty w or_else some (c ∷ p))
non_empty-set_if_empty [] c p = refl
non_empty-set_if_empty (d ∷ w) c p = refl

pub wildcard_step :
    (p acc reg : Text) (x : AwsIndex)
    → non_empty (index_entry p acc reg x).aws_wildcard
      ≡ (non_empty x.aws_wildcard or_else offered (for_both [] []) p acc reg)
unfolding index_entry offered text_eq
wildcard_step [] acc reg x = adds_nothing _ _ (offers_nothing (for_both [] []) acc reg)
wildcard_step (c ∷ p) [] [] x = non_empty-set_if_empty x.aws_wildcard c p
wildcard_step (c ∷ p) [] (s ∷ s') x = sym (or_else_none _)
wildcard_step (c ∷ p) (d ∷ d') [] x = sym (or_else_none _)
wildcard_step (c ∷ p) (d ∷ d') (s ∷ s') x = sym (or_else_none _)
