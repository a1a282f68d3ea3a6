-- ===== src/Codeowners/Globs.antt =====
-- The matcher of one segment of pkg/authz/codeowners.go, which fills a row of answers for each
-- character of the pattern, against the definition of a glob by recursion.
use monofs.Prelude.{
  ℕ, suc, Bool, true, false, ◌&&◌, ◌||◌, List, [], ◌∷◌, length, ◌==◌, if◌then◌else◌, Bool-cases,
  Text, ◌≡◌, refl, ap, ◌∙◌, inl, inr, arith,
}
use monofs.Codeowners.{
  any_rest, is_nil, none_yet, cover, advance_any, advance, next_row, match_rows, last_bool,
  match_segment,
}

abbrev pub behind_one : (ℕ → Bool) → (Text → Bool) → Text → Bool
behind_one fits rest [] = false
behind_one fits rest (c ∷ s) = fits c && rest s

-- A glob: `*` stands for any characters, `?` for one, and any other character for itself.
unfoldable pub glob : Text → Text → Bool
glob [] s = is_nil s
glob (p ∷ ps) s =
    if p == 42
    then any_rest (λ r. glob ps r) s
    else if p == 63
    then behind_one (λ c. true) (λ r. glob ps r) s
    else behind_one (λ c. c == p) (λ r. glob ps r) s

-- Whether `f` passes on what is left behind one of the beginnings that a row marks.
abbrev any_at : (Text → Bool) → List Bool → Text → Bool
any_at f [] s = false
any_at f (d ∷ dp) [] = d && f []
any_at f (d ∷ dp) (c ∷ s) = (d && f (c ∷ s)) || any_at f dp s

-- A row has one answer more than the segment has characters.
abbrev IsRow : List Bool → Text → Type 0
IsRow dp s = length dp ≡ suc (length s)

any_at-cover :
    (f : Text → Bool) (b : Bool) (dp : List Bool) (s : Text)
    → IsRow dp s
    → any_at f (cover b dp) s ≡ ((b && any_rest f s) || any_at (λ r. any_rest f r) dp s)
unfolding cover
any_at-cover f b [] s h = absurd (omega arith)
any_at-cover f b (d ∷ dp) [] h = ground arith
any_at-cover f b (d ∷ dp) (c ∷ s) h =
    let ih = any_at-cover f (b || d) dp s (omega arith) in ground (arith, ih)

any_at-none : (f : Text → Bool) (s : Text) → any_at f (false ∷ none_yet s) s ≡ false
any_at-none f [] = refl
any_at-none f (c ∷ s) = any_at-none f s

any_at-advance :
    (f : Text → Bool) (p : ℕ) (b : Bool) (dp : List Bool) (s : Text)
    → IsRow dp s
    → any_at f (b ∷ advance p dp s) s ≡ ((b && f s) || any_at (behind_one (λ c. c == p) f) dp s)
unfolding advance
any_at-advance f p b [] s h = absurd (omega arith)
any_at-advance f p b (d ∷ dp) [] h = ground arith
any_at-advance f p b (d ∷ dp) (c ∷ s) h =
    let ih = any_at-advance f p (d && c == p) dp s (omega arith) in ground (arith, ih)

any_at-advance_any :
    (f : Text → Bool) (b : Bool) (dp : List Bool) (s : Text)
    → IsRow dp s
    → any_at f (b ∷ advance_any dp s) s ≡ ((b && f s) || any_at (behind_one (λ c. true) f) dp s)
unfolding advance_any
any_at-advance_any f b [] s h = absurd (omega arith)
any_at-advance_any f b (d ∷ dp) [] h = ground arith
any_at-advance_any f b (d ∷ dp) (c ∷ s) h =
    let ih = any_at-advance_any f d dp s (omega arith) in ground (arith, ih)

length-cover : (b : Bool) (dp : List Bool) → length (cover b dp) ≡ length dp
unfolding cover
length-cover b [] = refl
length-cover b (d ∷ dp) = ap suc (length-cover (b || d) dp)

length-advance :
    (p : ℕ) (dp : List Bool) (s : Text) → IsRow dp s → length (advance p dp s) ≡ length s
unfolding advance
length-advance p [] s h = absurd (omega arith)
length-advance p (d ∷ dp) [] h = refl
length-advance p (d ∷ dp) (c ∷ s) h = ap suc (length-advance p dp s (omega arith))

length-advance_any : (dp : List Bool) (s : Text) → IsRow dp s → length (advance_any dp s) ≡ length s
unfolding advance_any
length-advance_any [] s h = absurd (omega arith)
length-advance_any (d ∷ dp) [] h = refl
length-advance_any (d ∷ dp) (c ∷ s) h = ap suc (length-advance_any dp s (omega arith))

-- One character of the pattern.
next_row-glob :
    (p : ℕ) (ps : Text) (dp : List Bool) (s : Text)
    → IsRow dp s
    → IsRow (next_row p dp s) s
      × (any_at (λ r. glob ps r) (next_row p dp s) s ≡ any_at (λ r. glob (p ∷ ps) r) dp s)
unfolding glob next_row cover
next_row-glob p ps dp s h = elim (Bool-cases (p == 42)) [
  | inl t ↦ rw t (length-cover false dp ∙ h, any_at-cover (λ r. glob ps r) false dp s h)
  | inr t ↦ elim (Bool-cases (p == 63)) [
    | inl q ↦
        rw (t, q)
          (ap suc (length-advance_any dp s h), any_at-advance_any (λ r. glob ps r) false dp s h)
    | inr q ↦
        rw (t, q) (ap suc (length-advance p dp s h), any_at-advance (λ r. glob ps r) p false dp s h)
  ]
]

last_bool-any_at : (dp : List Bool) (s : Text) → IsRow dp s → last_bool dp ≡ any_at is_nil dp s
last_bool-any_at [] s h = absurd (omega arith)
last_bool-any_at (d ∷ []) [] h = ground arith
last_bool-any_at (d ∷ []) (c ∷ s) h = absurd (omega arith)
last_bool-any_at (d ∷ e ∷ dp) [] h = absurd (omega arith)
last_bool-any_at (d ∷ e ∷ dp) (c ∷ s) h =
    let ih = last_bool-any_at (e ∷ dp) s (omega arith) in ground (arith, ih)

match_rows-glob :
    (ps : Text) (dp : List Bool) (s : Text)
    → IsRow dp s
    → last_bool (match_rows ps dp s) ≡ any_at (λ r. glob ps r) dp s
unfolding match_rows glob
match_rows-glob [] dp s h = last_bool-any_at dp s h
match_rows-glob (p ∷ ps) dp s h =
    let (row, same) = next_row-glob p ps dp s h in match_rows-glob ps (next_row p dp s) s row ∙ same

length-none_yet : (s : Text) → length (none_yet s) ≡ length s
length-none_yet [] = refl
length-none_yet (c ∷ s) = ap suc (length-none_yet s)

or_false : (b : Bool) → (b || false) ≡ b
or_false true = refl
or_false false = refl

any_at-first : (f : Text → Bool) (s : Text) → any_at f (true ∷ none_yet s) s ≡ f s
any_at-first f [] = refl
any_at-first f (c ∷ s) = rw (any_at-none f s) (or_false (f (c ∷ s)))

-- The rows that codeownersMatchSegment fills, one for each character of the pattern, decide whether a
-- segment matches the pattern as a glob: `*` stands for any characters, `?` for exactly one, and any
-- other character for itself.
pub match_segment-glob :
    (pattern segment : Text) → match_segment pattern segment ≡ glob pattern segment
unfolding match_segment
match_segment-glob pattern segment =
    match_rows-glob pattern (true ∷ none_yet segment) segment (ap suc (length-none_yet segment))
    ∙ any_at-first (λ r. glob pattern r) segment
