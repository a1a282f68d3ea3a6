-- ===== src/Merge3/Cuts.antt =====
-- The slices of lines that internal/fuse/merge3.go takes, from one position to another.
use monofs.Prelude.{
  ℕ, zero, suc, ◌+◌, ◌-◌, ◌≤◌, true, some, List, [], ◌∷◌, ◌++◌, length, take, drop,
  take-append-drop, take_all, length-drop, leb, ◌≡◌, refl, sym, ap, ◌∙◌, arith,
}
use monofs.Merge3.{cut}

module _ {ℓ} {A : Type ℓ} where
  abbrev none_left : List A
  none_left = []

  take_none : (n : ℕ) → take n none_left ≡ []
  take_none zero = refl
  take_none (suc n) = refl

  drop_none : (n : ℕ) → drop n none_left ≡ []
  drop_none zero = refl
  drop_none (suc n) = refl

  drop-drop : (n k m : ℕ) (xs : List A) → m ≡ n + k → drop k (drop n xs) ≡ drop m xs
  drop-drop zero k m xs e = ap (λ j. drop j xs) (let e' : k ≡ m = omega arith in e')
  drop-drop (suc n) k m [] e = drop_none k ∙ sym (drop_none m)
  drop-drop (suc n) k zero (x ∷ xs) e = absurd (omega arith)
  drop-drop (suc n) k (suc m) (x ∷ xs) e = drop-drop n k m xs (omega arith)

  take_add : (k j m : ℕ) (xs : List A) → m ≡ k + j → take m xs ≡ take k xs ++ take j (drop k xs)
  take_add zero j m xs e = ap (λ i. take i xs) (let e' : m ≡ j = omega arith in e')
  take_add (suc k) j m [] e = take_none m ∙ sym (take_none j)
  take_add (suc k) j zero (x ∷ xs) e = absurd (omega arith)
  take_add (suc k) j (suc m) (x ∷ xs) e = ap (λ ys. x ∷ ys) (take_add k j m xs (omega arith))

  -- From one position to another, and on from there.
  pub take-drop_on :
      (n m : ℕ) (xs : List A) → n ≤ m → take (m - n) (drop n xs) ++ drop m xs ≡ drop n xs
  take-drop_on n m xs h =
      ap (λ ys. take (m - n) (drop n xs) ++ ys) (sym (drop-drop n (m - n) m xs (omega arith)))
      ∙ take-append-drop (m - n) (drop n xs)

  pub take-drop_between :
      (n m k : ℕ) (xs : List A)
      → n ≤ m
      → m ≤ k
      → take (k - n) (drop n xs) ≡ take (m - n) (drop n xs) ++ take (k - m) (drop m xs)
  take-drop_between n m k xs h h' =
      take_add (m - n) (k - m) (k - n) (drop n xs) (omega arith)
      ∙ ap (λ ys. take (m - n) (drop n xs) ++ take (k - m) ys)
          (drop-drop n (m - n) m xs (omega arith))

  pub cut_some :
      (n m : ℕ) (xs : List A) → n ≤ m → m ≤ length xs → cut n m xs ≡ some (take (m - n) (drop n xs))
  unfolding cut
  cut_some n m xs h h' =
      let p : leb n m ≡ true = ground arith in
      let q : leb m (length xs) ≡ true = ground arith in rw (p, q) refl

  pub cut_end : (n : ℕ) (xs : List A) → n ≤ length xs → cut n (length xs) xs ≡ some (drop n xs)
  cut_end n xs h =
      cut_some n (length xs) xs h (omega arith)
      ∙ ap some (
          ap (λ k. take k (drop n xs))
            (let e : length xs - n ≡ length (drop n xs) = omega (arith, length-drop n xs h) in e)
          ∙ take_all (drop n xs))
