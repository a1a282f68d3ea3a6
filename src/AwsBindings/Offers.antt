-- ===== src/AwsBindings/Offers.antt =====
-- What a loop over the bindings of pkg/authz/policy/policy.go leaves in an index.
use monofs.Prelude.{
  Bool, true, false, ◌&&◌, Option, none, some, List, [], ◌∷◌, ◌++◌, if◌then◌else◌, Text, text_eq,
  text_eq_sound, trim_space, has_nul, Bool-cases, ◌≡◌, refl, sym, ap, ◌∙◌, inl, inr, arith,
}
use monofs.AwsBindings.{
  AwsBinding, TextMap, AwsIndex, put_if, put_absent, exact_key, index_entry, index_from, ◌or_else◌,
  non_empty,
}

-- The partition of a binding whose trimmed account and region pass a test.
unfoldable pub offered : (Text → Text → Bool) → Text → Text → Text → Option Text
offered test partition account region = if test account region then non_empty partition else none

-- The first partition that the bindings offer to a test.
unfoldable pub first_bound : (Text → Text → Bool) → List AwsBinding → Option Text
unfolding offered trim_space
first_bound test [] = none
first_bound test (b ∷ bs) =
    offered test (trim_space b.partition) (trim_space b.account) (trim_space b.region)
    or_else first_bound test bs

abbrev pub for_both : Text → Text → Text → Text → Bool
for_both a r account region = text_eq a account && text_eq r region

abbrev pub in_region : Text → Text → Text → Bool
in_region r account region = text_eq r region

pub or_else_none : (o : Option Text) → (o or_else none) ≡ o
or_else_none none = refl
or_else_none (some t) = refl

or_else_assoc : (a b c : Option Text) → ((a or_else b) or_else c) ≡ (a or_else b or_else c)
or_else_assoc none b c = refl
or_else_assoc (some t) b c = refl

-- A map that already has the key keeps its value.
put_if-lookup :
    (o : Option Text) (key v : Text) (m : TextMap) (k : Text)
    → m key ≡ o
    → put_if o key v m k ≡ (m k or_else (if text_eq k key then some v else none))
put_if-lookup none key v m k e = elim (Bool-cases (text_eq k key)) [
  | inl t ↦ rw (t, text_eq_sound k key t, e) refl
  | inr f ↦ rw f (sym (or_else_none (m k)))
]
put_if-lookup (some old) key v m k e = elim (Bool-cases (text_eq k key)) [
  | inl t ↦ rw (t, text_eq_sound k key t, e) refl
  | inr f ↦ rw f (sym (or_else_none (m k)))
]

pub put_absent-lookup :
    (key v : Text) (m : TextMap) (k : Text)
    → put_absent key v m k ≡ (m k or_else (if text_eq k key then some v else none))
unfolding put_absent
put_absent-lookup key v m k = put_if-lookup (m key) key v m k refl

-- A key with one NUL names one account and one region.
text_eq-nul : (r s t : Text) → has_nul r ≡ false → text_eq r (s ++ 0 ∷ t) ≡ false
unfolding text_eq has_nul
text_eq-nul [] [] t h = refl
text_eq-nul [] (x ∷ s) t h = refl
text_eq-nul (c ∷ r) [] t h = ground arith
text_eq-nul (c ∷ r) (x ∷ s) t h = ground (arith, text_eq-nul r s t)

pub text_eq-exact_key :
    (a r account region : Text)
    → has_nul a ≡ false
    → has_nul r ≡ false
    → text_eq (exact_key a r) (exact_key account region) ≡ for_both a r account region
unfolding text_eq has_nul
text_eq-exact_key [] r [] region ha hr = refl
text_eq-exact_key [] r (c ∷ cs) region ha hr = ground (arith, text_eq-nul r cs region hr)
text_eq-exact_key (c ∷ a) r [] region ha hr = ground arith
text_eq-exact_key (c ∷ a) r (d ∷ ds) region ha hr = ground (arith, text_eq-exact_key a r ds region)

-- What a loop over the bindings leaves in a part of the index that each round fills by a test.
pub index_from-field :
    (field : AwsIndex → Option Text) (test : Text → Text → Bool)
    → ((p a r : Text) (x : AwsIndex)
        → field (index_entry p a r x) ≡ (field x or_else offered test p a r))
    → (x : AwsIndex) (bs : List AwsBinding)
    → field (index_from x bs) ≡ (field x or_else first_bound test bs)
unfolding index_from first_bound
index_from-field field test step x [] = sym (or_else_none (field x))
index_from-field field test step x (b ∷ bs) =
    let p = trim_space b.partition in
    let a = trim_space b.account in
    let r = trim_space b.region in
    index_from-field field test step (index_entry p a r x) bs
    ∙ ap (λ o. o or_else first_bound test bs) (step p a r x)
    ∙ or_else_assoc (field x) (offered test p a r) (first_bound test bs)

pub offers_nothing : (test : Text → Text → Bool) (a r : Text) → offered test [] a r ≡ none
unfolding offered
offers_nothing test a r = elim (Bool-cases (test a r)) [ inl t ↦ rw t refl | inr f ↦ rw f refl ]

-- A binding with no partition, or one that a test refuses, adds nothing.
pub adds_nothing : (o offer : Option Text) → offer ≡ none → o ≡ (o or_else offer)
adds_nothing o offer e = sym (ap (λ q. o or_else q) e ∙ or_else_none o)

pub and_false : (b : Bool) → (b && false) ≡ false
and_false true = refl
and_false false = refl

pub and_true : (b : Bool) → (b && true) ≡ b
and_true true = refl
and_true false = refl

pub refused :
    (test : Text → Text → Bool) (p a r : Text) → test a r ≡ false → offered test p a r ≡ none
unfolding offered
refused test p a r e = rw e refl
