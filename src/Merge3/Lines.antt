-- ===== src/Merge3/Lines.antt =====
-- The lines of internal/fuse/merge3.go: their comparison, and splitLines.
use monofs.Prelude.{
  true, ◌&&◌, List, [], ◌∷◌, ◌++◌, append-nil, append_assoc, Text, codes, text_eq_sound,
  text_eq_refl, text_eq_comm, split, join, join-split, ◌≡◌, refl, ap, ap₂, ◌∙◌, arith,
}
use monofs.Merge3.{equal_lines, with_newlines, split_lines, concat}

pub equal_lines_sound : (xs ys : List Text) → equal_lines xs ys ≡ true → xs ≡ ys
unfolding equal_lines
equal_lines_sound [] [] h = refl
equal_lines_sound [] (y ∷ ys) h = ground arith
equal_lines_sound (x ∷ xs) [] h = ground arith
equal_lines_sound (x ∷ xs) (y ∷ ys) h =
    ap₂ (λ l ls. l ∷ ls) (text_eq_sound x y (ground arith)) (equal_lines_sound xs ys (ground arith))

pub equal_lines_refl : (xs : List Text) → equal_lines xs xs ≡ true
unfolding equal_lines
equal_lines_refl [] = refl
equal_lines_refl (x ∷ xs) = rw (text_eq_refl x) (equal_lines_refl xs)

pub equal_lines_comm : (xs ys : List Text) → equal_lines xs ys ≡ equal_lines ys xs
unfolding equal_lines
equal_lines_comm [] [] = refl
equal_lines_comm [] (y ∷ ys) = refl
equal_lines_comm (x ∷ xs) [] = refl
equal_lines_comm (x ∷ xs) (y ∷ ys) = ap₂ (λ a b. a && b) (text_eq_comm x y) (equal_lines_comm xs ys)

concat-with_newlines : (ps : List Text) → concat (with_newlines ps) ≡ join 10 ps
unfolding concat with_newlines join
concat-with_newlines [] = refl
concat-with_newlines ([] ∷ []) = refl
concat-with_newlines ((c ∷ p) ∷ []) = append-nil (c ∷ p)
concat-with_newlines (p ∷ q ∷ ps) =
    append_assoc p (codes "\n") (concat (with_newlines (q ∷ ps)))
    ∙ ap (λ l. p ++ 10 ∷ l) (concat-with_newlines (q ∷ ps))

-- The lines of a text put together again are the text.
pub concat-split_lines : (content : Text) → concat (split_lines content) ≡ content
unfolding concat split_lines
concat-split_lines [] = refl
concat-split_lines (c ∷ content) =
    concat-with_newlines (split 10 (c ∷ content)) ∙ join-split 10 (c ∷ content)
