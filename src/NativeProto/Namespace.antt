-- ===== src/NativeProto/Namespace.antt =====
-- The fixed messages on names and attributes of internal/nativeproto/protocol.go.
use monofs.Prelude.{ℕ, ◌^◌, ◌<◌, ◌≡◌, Option, List, ◌++◌, length, Text}
use monofs.NativeProto.Encoder
use monofs.NativeProto.Decoder
use monofs.NativeProto.Decoder.{◌>>=◌, pure}
use monofs.NativeProto.Attr.{run}

pub record LookupRequest : Type 0 where
  pub parent_object_id : List ℕ  -- [16]byte
  pub name : Text

-- The ranges of the Go types of a `LookupRequest`.
pub record IsLookupRequest (m : LookupRequest) : Type 0 where
  pub parent_object_id : length m.parent_object_id ≡ 16
  pub name : length m.name < 2 ^ 32

unfoldable pub encode_lookup_request : LookupRequest → List ℕ
encode_lookup_request m = Encoder.object_id m.parent_object_id ++ Encoder.str m.name

unfoldable pub decode_lookup_request : List ℕ → Option LookupRequest
unfolding run
decode_lookup_request = run do
  parent_object_id ← Decoder.object_id
  name ← Decoder.str
  pure (record { parent_object_id = parent_object_id; name = name })

pub record GetAttrRequest : Type 0 where
  pub object_id : List ℕ  -- [16]byte

-- The ranges of the Go types of a `GetAttrRequest`.
pub record IsGetAttrRequest (m : GetAttrRequest) : Type 0 where
  pub object_id : length m.object_id ≡ 16

unfoldable pub encode_get_attr_request : GetAttrRequest → List ℕ
encode_get_attr_request m = Encoder.object_id m.object_id

unfoldable pub decode_get_attr_request : List ℕ → Option GetAttrRequest
unfolding run
decode_get_attr_request =
    run do object_id ← Decoder.object_id; pure (record { object_id = object_id })

pub record ReadDirRequest : Type 0 where
  pub dir_object_id : List ℕ  -- [16]byte
  pub cookie : ℕ  -- uint64
  pub max_entries : ℕ  -- uint32
  pub max_bytes : ℕ  -- uint32

-- The ranges of the Go types of a `ReadDirRequest`.
pub record IsReadDirRequest (m : ReadDirRequest) : Type 0 where
  pub dir_object_id : length m.dir_object_id ≡ 16
  pub cookie : m.cookie < 2 ^ 64
  pub max_entries : m.max_entries < 2 ^ 32
  pub max_bytes : m.max_bytes < 2 ^ 32

unfoldable pub encode_read_dir_request : ReadDirRequest → List ℕ
encode_read_dir_request m =
    Encoder.object_id m.dir_object_id
    ++ (Encoder.u64 m.cookie ++ (Encoder.u32 m.max_entries ++ Encoder.u32 m.max_bytes))

unfoldable pub decode_read_dir_request : List ℕ → Option ReadDirRequest
unfolding run
decode_read_dir_request = run do
  dir_object_id ← Decoder.object_id
  cookie ← Decoder.u64
  max_entries ← Decoder.u32
  max_bytes ← Decoder.u32
  pure (record {
    dir_object_id = dir_object_id;
    cookie = cookie;
    max_entries = max_entries;
    max_bytes = max_bytes;
  })

pub record StatFsResponse : Type 0 where
  pub blocks : ℕ  -- uint64
  pub bfree : ℕ  -- uint64
  pub bavail : ℕ  -- uint64
  pub files : ℕ  -- uint64
  pub ffree : ℕ  -- uint64
  pub bsize : ℕ  -- uint32
  pub frsize : ℕ  -- uint32
  pub name_len : ℕ  -- uint32

-- The ranges of the Go types of a `StatFsResponse`.
pub record IsStatFsResponse (m : StatFsResponse) : Type 0 where
  pub blocks : m.blocks < 2 ^ 64
  pub bfree : m.bfree < 2 ^ 64
  pub bavail : m.bavail < 2 ^ 64
  pub files : m.files < 2 ^ 64
  pub ffree : m.ffree < 2 ^ 64
  pub bsize : m.bsize < 2 ^ 32
  pub frsize : m.frsize < 2 ^ 32
  pub name_len : m.name_len < 2 ^ 32

unfoldable pub encode_stat_fs_response : StatFsResponse → List ℕ
encode_stat_fs_response m =
    Encoder.u64 m.blocks
    ++ (Encoder.u64 m.bfree
        ++ (Encoder.u64 m.bavail
            ++ (Encoder.u64 m.files
                ++ (Encoder.u64 m.ffree
                    ++ (Encoder.u32 m.bsize ++ (Encoder.u32 m.frsize ++ Encoder.u32 m.name_len))))))

unfoldable pub decode_stat_fs_response : List ℕ → Option StatFsResponse
unfolding run
decode_stat_fs_response = run do
  blocks ← Decoder.u64
  bfree ← Decoder.u64
  bavail ← Decoder.u64
  files ← Decoder.u64
  ffree ← Decoder.u64
  bsize ← Decoder.u32
  frsize ← Decoder.u32
  name_len ← Decoder.u32
  pure (record {
    blocks = blocks;
    bfree = bfree;
    bavail = bavail;
    files = files;
    ffree = ffree;
    bsize = bsize;
    frsize = frsize;
    name_len = name_len;
  })
