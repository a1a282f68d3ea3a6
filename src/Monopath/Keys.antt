-- ===== src/Monopath/Keys.antt =====
-- BuildShardKey of internal/monopath/path.go tells files apart as well as SHA-256 does.
use monofs.Prelude.{
  ℕ, ◌*◌, ◌/◌, ◌%◌, ◌<◌, ◌≡◌, refl, ap, ap₂, sym, ◌∙◌, inl, inr, false, ◌||◌, some, List, [], ◌∷◌,
  ◌++◌, length, arith, All, if◌then◌else◌, Bool-cases, Text, text_eq, append_inv, append-nil,
  head_of, tail_of,
}
use monofs.Monopath.{
  slash, hex_digit, hex_encode, Sha256, generate_storage_id, join_shard_key, shard_key_of,
  key_or_path, split_display_path, build_shard_key,
}

hex_digit_inj : (a b : ℕ) → a < 16 → b < 16 → hex_digit a ≡ hex_digit b → a ≡ b
unfolding hex_digit
hex_digit_inj a b ha hb e = ground arith

hex_encode_inj :
    (bs cs : List ℕ)
    → All (λ b. b < 256) bs
    → All (λ c. c < 256) cs
    → hex_encode bs ≡ hex_encode cs
    → bs ≡ cs
unfolding hex_encode
hex_encode_inj [] [] hb hc e = refl
hex_encode_inj [] (c ∷ cs) hb hc e = cc
hex_encode_inj (b ∷ bs) [] hb hc e = cc
hex_encode_inj (b ∷ bs) (c ∷ cs) hb hc e =
    let high = hex_digit_inj (b / 16) (c / 16) (omega arith) (omega arith) (head_of e) in
    let low = hex_digit_inj (b % 16) (c % 16) (omega arith) (omega arith) (head_of (tail_of e)) in
    ap₂ (λ x xs. x ∷ xs) (omega (arith, high, low))
      (hex_encode_inj bs cs hb.1 hc.1 (tail_of (tail_of e)))

length-hex_encode : (bs : List ℕ) → length (hex_encode bs) ≡ 2 * length bs
unfolding hex_encode
length-hex_encode [] = refl
length-hex_encode (b ∷ bs) = omega (arith, length-hex_encode bs)

module _ (sha : Sha256) where
  length-storage_id : (d : Text) → length (generate_storage_id sha d) ≡ 64
  unfolding generate_storage_id
  length-storage_id d = omega (arith, length-hex_encode (sha.sum256 d), sha.length-sum256 d)

  storage_id_inj :
      (d d' : Text)
      → generate_storage_id sha d ≡ generate_storage_id sha d'
      → sha.sum256 d ≡ sha.sum256 d'
  unfolding generate_storage_id
  storage_id_inj d d' e =
      hex_encode_inj (sha.sum256 d) (sha.sum256 d') (sha.bytes d) (sha.bytes d') e

  -- The part of a key behind the storage id.
  tail_key : Text → Text
  tail_key f = if text_eq f [] then [] else b':' ∷ f

  shard_key-tail : (d f : Text) → shard_key_of sha (d, f) ≡ generate_storage_id sha d ++ tail_key f
  unfolding tail_key join_shard_key
  shard_key-tail d f = elim (Bool-cases (text_eq f [])) [
    | inl e ↦ rw e (sym (append-nil (generate_storage_id sha d)))
    | inr e ↦ rw e
  ]

  tail_key_inj : (f g : Text) → tail_key f ≡ tail_key g → f ≡ g
  unfolding tail_key text_eq
  tail_key_inj [] [] e = refl
  tail_key_inj [] (c ∷ g) e = cc
  tail_key_inj (c ∷ f) [] e = cc
  tail_key_inj (c ∷ f) (c' ∷ g) e = tail_of e

proper_path :
    (p d f : Text)
    → split_display_path p ≡ some (d, f)
    → (text_eq p [] || text_eq p (slash ∷ [])) ≡ false
unfolding split_display_path
proper_path p d f e = elim (Bool-cases (text_eq p [] || text_eq p (slash ∷ []))) [
  | inl root ↦ cc (rw root at e)
  | inr proper ↦ proper
]

build_shard_key-some :
    (sha : Sha256) (p d f : Text)
    → split_display_path p ≡ some (d, f)
    → build_shard_key sha p ≡ shard_key_of sha (d, f)
unfolding build_shard_key
build_shard_key-some sha p d f e = rw (proper_path p d f e) (ap (key_or_path sha p) e)

-- Two paths with the same shard key have the same file path, and display paths with the same SHA-256
-- digest. Both paths have a display path.
pub build_shard_key_inj :
    (sha : Sha256) (p q d d' f f' : Text)
    → split_display_path p ≡ some (d, f)
    → split_display_path q ≡ some (d', f')
    → build_shard_key sha p ≡ build_shard_key sha q
    → (sha.sum256 d ≡ sha.sum256 d') × (f ≡ f')
build_shard_key_inj sha p q d d' f f' ep eq e =
    let same =
      append_inv (generate_storage_id sha d) (generate_storage_id sha d') (tail_key sha f)
        (tail_key sha f') (length-storage_id sha d ∙ sym (length-storage_id sha d'))
        (sym (shard_key-tail sha d f)
          ∙ sym (build_shard_key-some sha p d f ep)
          ∙ e
          ∙ build_shard_key-some sha q d' f' eq
          ∙ shard_key-tail sha d' f') in
    (storage_id_inj sha d d' same.0, tail_key_inj sha f f' same.1)
