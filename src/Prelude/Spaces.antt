-- ===== src/Prelude/Spaces.antt =====
-- Go's strings.TrimSpace, strings.EqualFold and sort.Strings on lists of code points.
use Prim.Native.Nat.{ℕ}
use mathlib.Core.Path.{◌≡◌, refl}
use mathlib.Core.Logic.{inl, inr}
use mathlib.Core.Bool.{Bool, true, false, ◌&&◌, ◌||◌}
use mathlib.Core.List.{List, [], ◌∷◌}
use native.Mathlib.Omega.{arith}
use monofs.Prelude.Tests.{ltb, leb, ◌==◌, if◌then◌else◌, Bool-cases}
use monofs.Prelude.Texts.{Text, text_eq, text_eq_sound}
use monofs.Prelude.Strings.{keep_unless}

-- `unicode.IsSpace`, the code points with the property White_Space.
abbrev pub is_space : ℕ → Bool
is_space c =
    (leb 9 c && leb c 13)
    || c == 32
    || c == 133
    || c == 160
    || c == 5760
    || (leb 8192 c && leb c 8202)
    || c == 8232
    || c == 8233
    || c == 8239
    || c == 8287
    || c == 12288

unfoldable pub trim_space_left : Text → Text
trim_space_left [] = []
trim_space_left (x ∷ xs) = let rest = trim_space_left xs in if is_space x then rest else x ∷ xs

unfoldable pub trim_space_right : Text → Text
trim_space_right [] = []
trim_space_right (x ∷ xs) = keep_unless (is_space x) x (trim_space_right xs)

unfoldable pub trim_space : Text → Text
unfolding trim_space_left trim_space_right
trim_space s = trim_space_right (trim_space_left s)

-- `strings.EqualFold`: `fold` maps a code point to the representative of its case-folding orbit.
unfoldable pub equal_fold : (ℕ → ℕ) → Text → Text → Bool
equal_fold fold [] [] = true
equal_fold fold [] (b ∷ t) = false
equal_fold fold (a ∷ s) [] = false
equal_fold fold (a ∷ s) (b ∷ t) = fold a == fold b && equal_fold fold s t

abbrev pub is_empty : Text → Bool
is_empty [] = true
is_empty (x ∷ xs) = false

-- The order of strings: bytes of UTF-8 compare as code points do.
unfoldable pub text_lt : Text → Text → Bool
text_lt [] [] = false
text_lt [] (b ∷ t) = true
text_lt (a ∷ s) [] = false
text_lt (a ∷ s) (b ∷ t) = ltb a b || (a == b && text_lt s t)

unfoldable pub has_text : Text → List Text → Bool
has_text t [] = false
has_text t (s ∷ ss) = text_eq s t || has_text t ss

-- `seen[t] = true` on a set that is kept as the sorted list of its members.
unfoldable pub insert_text : Text → List Text → List Text
unfolding text_lt
insert_text t [] = t ∷ []
insert_text t (s ∷ ss) =
    let rest = insert_text t ss in
    if text_eq t s then s ∷ ss else if text_lt t s then t ∷ s ∷ ss else s ∷ rest

pub has_text-insert_text :
    (x t : Text) (ss : List Text) → has_text x (insert_text t ss) ≡ (text_eq t x || has_text x ss)
unfolding has_text insert_text
has_text-insert_text x t [] = refl
has_text-insert_text x t (s ∷ ss) =
    let ih = has_text-insert_text x t ss in
    elim (Bool-cases (text_eq t s)) [
      | inl e ↦ let same = text_eq_sound t s e in rw (e, same) (ground arith)
      | inr e ↦ elim (Bool-cases (text_lt t s)) [
        | inl l ↦ rw (e, l) refl
        | inr l ↦ rw (e, l, ih) (ground arith)
      ]
    ]

-- Where a NUL stands in what is left, it stood in the whole.
unfoldable pub has_nul : Text → Bool
has_nul [] = false
has_nul (x ∷ xs) = x == 0 || has_nul xs

has_nul-keep_unless :
    (b : Bool) (x : ℕ) (xs ys : Text)
    → (has_nul xs ≡ false → has_nul ys ≡ false)
    → has_nul (x ∷ xs) ≡ false
    → has_nul (keep_unless b x ys) ≡ false
unfolding has_nul
has_nul-keep_unless true x xs [] f h = refl
has_nul-keep_unless true x xs (y ∷ ys) f h = ground (arith, f)
has_nul-keep_unless false x xs ys f h = ground (arith, f)

has_nul-trim_space_left : (s : Text) → has_nul s ≡ false → has_nul (trim_space_left s) ≡ false
unfolding has_nul trim_space_left
has_nul-trim_space_left [] h = refl
has_nul-trim_space_left (x ∷ xs) h = elim (Bool-cases (is_space x)) [
  | inl e ↦ rw e (has_nul-trim_space_left xs (ground arith))
  | inr e ↦ rw e h
]

has_nul-trim_space_right : (s : Text) → has_nul s ≡ false → has_nul (trim_space_right s) ≡ false
unfolding trim_space_right
has_nul-trim_space_right [] h = h
has_nul-trim_space_right (x ∷ xs) h =
    has_nul-keep_unless (is_space x) x xs (trim_space_right xs) (has_nul-trim_space_right xs) h

pub has_nul-trim_space : (s : Text) → has_nul s ≡ false → has_nul (trim_space s) ≡ false
unfolding trim_space
has_nul-trim_space s h = has_nul-trim_space_right (trim_space_left s) (has_nul-trim_space_left s h)
