-- ===== src/Prelude/Strings.antt =====
-- Go's strings package on lists of code points: what the program calls.
use Prim.Native.Nat.{ℕ, zero, suc}
use mathlib.Core.Path.{◌≡◌, refl, ap, ap₂, sym, ◌∙◌}
use mathlib.Core.Logic.{inl, inr}
use mathlib.Core.Bool.{Bool, true, false, ◌&&◌, ◌||◌}
use mathlib.Core.List.{List, [], ◌∷◌, ◌++◌, append_assoc}
use native.Mathlib.Omega.{arith}
use monofs.Prelude.Tests.{◌==◌, Bool-cases, if◌then◌else◌}
use monofs.Prelude.Lists.{take, drop}
use monofs.Prelude.Texts.{Text}

-- `strings.TrimLeft` and `TrimRight` by one character, and `strings.Trim`.
unfoldable pub trim_left : ℕ → Text → Text
trim_left c [] = []
trim_left c (x ∷ xs) = let rest = trim_left c xs in if x == c then rest else x ∷ xs

abbrev pub keep_unless : Bool → ℕ → Text → Text
keep_unless true x [] = []
keep_unless true x (y ∷ ys) = x ∷ y ∷ ys
keep_unless false x ys = x ∷ ys

unfoldable pub trim_right : ℕ → Text → Text
trim_right c [] = []
trim_right c (x ∷ xs) = keep_unless (x == c) x (trim_right c xs)

unfoldable pub trim : ℕ → Text → Text
unfolding trim_left trim_right
trim c s = trim_right c (trim_left c s)

abbrev pub push : ℕ → List Text → List Text
push x [] = (x ∷ []) ∷ []
push x (p ∷ ps) = (x ∷ p) ∷ ps

-- `strings.Split` by one character.
unfoldable pub split : ℕ → Text → List Text
split c [] = [] ∷ []
split c (x ∷ xs) = let rest = split c xs in if x == c then [] ∷ rest else push x rest

-- `strings.Join` by one character.
unfoldable pub join : ℕ → List Text → Text
join c [] = []
join c (p ∷ []) = p
join c (p ∷ q ∷ ps) = p ++ c ∷ join c (q ∷ ps)

-- `strings.HasPrefix` and `bytes.Contains`.
unfoldable pub has_prefix : Text → Text → Bool
has_prefix s [] = true
has_prefix [] (p ∷ ps) = false
has_prefix (c ∷ s) (p ∷ ps) = c == p && has_prefix s ps

unfoldable pub contains : Text → Text → Bool
unfolding has_prefix
contains [] p = has_prefix [] p
contains (c ∷ s) p = has_prefix (c ∷ s) p || contains s p

has_prefix-append : (s t p : Text) → has_prefix s p ≡ true → has_prefix (s ++ t) p ≡ true
unfolding has_prefix
has_prefix-append s t [] h = refl
has_prefix-append [] t (p ∷ ps) h = ground arith
has_prefix-append (c ∷ s) t (p ∷ ps) h = ground (arith, has_prefix-append s t ps)

pub contains-behind : (t s p : Text) → contains s p ≡ true → contains (t ++ s) p ≡ true
unfolding contains
contains-behind [] s p h = h
contains-behind (c ∷ t) s p h = let rest = contains-behind t s p h in ground (arith, rest)

contains_nothing : (s : Text) → contains s [] ≡ true
unfolding contains has_prefix
contains_nothing [] = refl
contains_nothing (c ∷ s) = refl

pub contains-before : (s t p : Text) → contains s p ≡ true → contains (s ++ t) p ≡ true
unfolding contains has_prefix
contains-before [] t [] h = contains_nothing t
contains-before [] t (p ∷ ps) h = ground arith
contains-before (c ∷ s) t p h = elim (Bool-cases (has_prefix (c ∷ s) p)) [
  | inl e ↦ let first = has_prefix-append (c ∷ s) t p e in rw first refl
  | inr e ↦
      let rest = contains-before s t p (let k : contains s p ≡ true = rw e at h in k) in
      ground (arith, rest)
]

abbrev pub last_is : ℕ → Text → Bool
last_is c [] = false
last_is c (x ∷ []) = x == c
last_is c (x ∷ y ∷ ys) = last_is c (y ∷ ys)

last_is-keep_unless :
    (c x : ℕ) (ys : Text) → last_is c ys ≡ false → last_is c (keep_unless (x == c) x ys) ≡ false
last_is-keep_unless c x [] h = ground arith
last_is-keep_unless c x (y ∷ ys) h = ground arith

last_is-trim_right : (c : ℕ) (s : Text) → last_is c (trim_right c s) ≡ false
unfolding trim_right
last_is-trim_right c [] = refl
last_is-trim_right c (x ∷ xs) = last_is-keep_unless c x (trim_right c xs) (last_is-trim_right c xs)

pub last_is-trim : (c : ℕ) (s : Text) → last_is c (trim c s) ≡ false
unfolding trim
last_is-trim c s = last_is-trim_right c (trim_left c s)

pub last_is-append : (c : ℕ) (s : Text) → last_is c (s ++ c ∷ []) ≡ true
last_is-append c [] = ground arith
last_is-append c (x ∷ []) = ground arith
last_is-append c (x ∷ y ∷ ys) = last_is-append c (y ∷ ys)

join-push : (c x : ℕ) (p : Text) (ps : List Text) → join c (push x (p ∷ ps)) ≡ x ∷ join c (p ∷ ps)
unfolding join
join-push c x p [] = refl
join-push c x p (q ∷ ps) = refl

-- What `split` returns has a first piece.
split_cons : (c : ℕ) (s : Text) → (p : Text) × (ps : List Text) × (split c s ≡ p ∷ ps)
unfolding split
split_cons c [] = ([], [], refl)
split_cons c (x ∷ xs) =
    let (p, ps, e) = split_cons c xs in
    elim (Bool-cases (x == c)) [ inl t ↦ ([], split c xs, rw t) | inr t ↦ (x ∷ p, ps, rw (t, e)) ]

pub join-split : (c : ℕ) (s : Text) → join c (split c s) ≡ s
unfolding join split
join-split c [] = refl
join-split c (x ∷ xs) =
    let (p, ps, e) = split_cons c xs in
    let ih : join c (p ∷ ps) ≡ xs = ap (join c) (sym e) ∙ join-split c xs in
    elim (Bool-cases (x == c)) [
      | inl t ↦ rw (t, e) (ap₂ (λ a b. a ∷ b) (let same : c ≡ x = ground arith in same) ih)
      | inr t ↦ rw (t, e) (join-push c x p ps ∙ ap (λ l. x ∷ l) ih)
    ]

-- Cutting a path behind its first segments.
pub join-take-drop :
    (c n : ℕ) (ps : List Text) (q : Text) (qs : List Text)
    → drop (suc n) ps ≡ q ∷ qs
    → join c ps ≡ join c (take (suc n) ps) ++ c ∷ join c (q ∷ qs)
unfolding join
join-take-drop c n [] q qs e = ground arith
join-take-drop c zero (p ∷ []) q qs e = ground arith
join-take-drop c zero (p ∷ r ∷ ps) q qs e = ap (λ l. p ++ c ∷ join c l) e
join-take-drop c (suc n) (p ∷ []) q qs e = ground arith
join-take-drop c (suc n) (p ∷ r ∷ ps) q qs e =
    ap (λ l. p ++ c ∷ l) (join-take-drop c n (r ∷ ps) q qs e)
    ∙ sym (append_assoc p (c ∷ join c (r ∷ take n ps)) (c ∷ join c (q ∷ qs)))

pub take-drop_all {ℓ} : {A : Type ℓ} (n : ℕ) (xs : List A) → drop n xs ≡ [] → take n xs ≡ xs
take-drop_all zero xs e = sym e
take-drop_all (suc n) [] e = refl
take-drop_all (suc n) (x ∷ xs) e = ap (λ l. x ∷ l) (take-drop_all n xs e)
