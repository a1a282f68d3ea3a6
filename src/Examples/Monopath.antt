-- ===== src/Examples/Monopath.antt =====
-- Paths of internal/monopath/path.go.
use monofs.Prelude.{
  ℕ, ◌%◌, ◌<◌, ◌≡◌, refl, some, List, [], ◌∷◌, All, length, replicate, arith, codes, Text, trim,
}
use monofs.Monopath.{slash, Sha256, split_display_path, build_shard_key}
use monofs.Monopath.Display.{split_display_path-whole}
use monofs.Monopath.Keys.{build_shard_key_inj}

abbrev path : Text
path = codes "/github.com/owner/repo/pkg/file.go/"

split_path : split_display_path path ≡ some (codes "github.com/owner/repo", codes "pkg/file.go")
unfolding split_display_path monofs.Prelude.text_eq trim monofs.Prelude.split monofs.Prelude.join
split_path = refl

split_display_path-whole_example : trim slash path ≡ codes "github.com/owner/repo/pkg/file.go"
unfolding monofs.Prelude.text_eq
split_display_path-whole_example =
    split_display_path-whole path (codes "github.com/owner/repo") (codes "pkg/file.go") split_path

abbrev same_path : Text
same_path = codes "github.com/owner/repo/pkg/file.go"

split_same :
    split_display_path same_path ≡ some (codes "github.com/owner/repo", codes "pkg/file.go")
unfolding split_display_path monofs.Prelude.text_eq trim monofs.Prelude.split monofs.Prelude.join
split_same = refl

-- A digest of the right shape: 32 times the length of the text.
abbrev toy_sha : Sha256
toy_sha = record {
  sum256 = λ t. replicate 32 (length t % 256);
  length-sum256 = λ t. refl;
  bytes = λ t. (omega arith);
}

build_shard_key_inj_example :
    (toy_sha.sum256 (codes "github.com/owner/repo")
      ≡ toy_sha.sum256 (codes "github.com/owner/repo"))
    × (codes "pkg/file.go" ≡ codes "pkg/file.go")
unfolding build_shard_key split_display_path monofs.Prelude.text_eq trim monofs.Prelude.split
build_shard_key_inj_example =
    build_shard_key_inj toy_sha path same_path (codes "github.com/owner/repo")
      (codes "github.com/owner/repo") (codes "pkg/file.go") (codes "pkg/file.go") split_path
      split_same refl
