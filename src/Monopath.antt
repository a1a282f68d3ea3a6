-- ===== src/Monopath.antt =====
-- Paths, storage ids and shard keys: internal/monopath/path.go and internal/sharding/key.go.
pub mod Display
pub mod Keys
use monofs.Prelude.{
  ℕ, zero, suc, ◌+◌, ◌/◌, ◌%◌, ◌<◌, Bool, ◌||◌, Option, none, some, List, [], ◌∷◌, ◌++◌, length,
  take, drop, ltb, if◌then◌else◌, Text, text_eq, codes, trim, split, join, All, ◌≡◌,
}

abbrev pub slash : ℕ
slash = b'/'

-- `strings.Join(parts[:n], "/")` and `strings.Join(parts[n:], "/")`, which need `n` parts.
unfoldable pub cut_at : ℕ → List Text → Option (Text × Text)
cut_at n parts =
    if ltb (length parts) n
    then none
    else some (join slash (take n parts), join slash (drop n parts))

-- The `switch` on the first part: how many parts make the display path.
unfoldable pub depth : Text → ℕ
depth first =
    if text_eq first (codes "dependency") || text_eq first (codes "guardian-system")
    then 1
    else if text_eq first (codes "guardian") || text_eq first (codes "doctor")
    then 2
    else 3

unfoldable pub split_parts : List Text → Option (Text × Text)
unfolding cut_at depth
split_parts [] = none
split_parts (first ∷ parts) = cut_at (depth first) (first ∷ parts)

-- The display path and the file path; `none` is the result with ok = false.
unfoldable pub split_display_path : Text → Option (Text × Text)
unfolding split_parts
split_display_path full_path =
    if text_eq full_path [] || text_eq full_path (slash ∷ [])
    then none
    else let trimmed = trim slash full_path in
      if text_eq trimmed [] then none else split_parts (split slash trimmed)

-- `hex.EncodeToString`
unfoldable pub hex_digit : ℕ → ℕ
hex_digit n = if ltb n 10 then 48 + n else 87 + n

unfoldable pub hex_encode : List ℕ → Text
unfolding hex_digit
hex_encode [] = []
hex_encode (b ∷ bs) = hex_digit (b / 16) ∷ hex_digit (b % 16) ∷ hex_encode bs

-- Go's crypto/sha256: a digest is 32 bytes.
pub record Sha256 : Type 0 where
  pub sum256 : Text → List ℕ
  pub length-sum256 : (t : Text) → length (sum256 t) ≡ 32
  pub bytes : (t : Text) → All (λ b. b < 256) (sum256 t)

module _ (sha : Sha256) where
  unfoldable pub generate_storage_id : Text → Text
  unfolding hex_encode
  generate_storage_id display_path = hex_encode (sha.sum256 display_path)

  -- `sharding.BuildShardKey`
  unfoldable pub join_shard_key : Text → Text → Text
  join_shard_key storage_id file_path = storage_id ++ b':' ∷ file_path

  abbrev pub shard_key_of : Text × Text → Text
  shard_key_of (display_path, file_path) =
      if text_eq file_path []
      then generate_storage_id display_path
      else join_shard_key (generate_storage_id display_path) file_path

  abbrev pub key_or_path : Text → Option (Text × Text) → Text
  key_or_path full_path none = full_path
  key_or_path full_path (some parts) = shard_key_of parts

  -- `monopath.BuildShardKey`
  unfoldable pub build_shard_key : Text → Text
  unfolding generate_storage_id join_shard_key
  build_shard_key full_path =
      if text_eq full_path [] || text_eq full_path (slash ∷ [])
      then full_path
      else key_or_path full_path (split_display_path full_path)
