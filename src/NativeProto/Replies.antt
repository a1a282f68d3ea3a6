-- ===== src/NativeProto/Replies.antt =====
-- The replies of internal/nativeproto/protocol.go whose length depends on their content.
use monofs.Prelude.{
  ℕ, zero, suc, ◌^◌, ◌<◌, ◌≡◌, Bool, true, false, Option, none, some, List, [], ◌∷◌, ◌++◌, length,
  ltb, All, replicate, Text, if◌then◌else◌,
}
use monofs.Prelude.Int.{pos}
use monofs.NativeProto.Encoder
use monofs.NativeProto.Decoder
use monofs.NativeProto.Decoder.{Decode, ◌>>=◌, pure, fixed, remaining}
use monofs.NativeProto.Attr.{Attr, IsAttr, encode_attr, decode_attr, run}

-- `Attr{}` and `ObjectID{}`.
abbrev pub zero_attr : Attr
zero_attr = record {
  ino = 0;
  mode = 0;
  size = 0;
  mtime = pos 0;
  atime = pos 0;
  ctime = pos 0;
  nlink = 0;
  uid = 0;
  gid = 0;
}

abbrev pub zero_id : List ℕ
zero_id = replicate 16 0

pub record LookupResponse : Type 0 where
  pub found : Bool
  pub entry_ttl_ms : ℕ  -- uint32
  pub object_id : List ℕ  -- [16]byte
  pub attr : Attr

-- The ranges of the Go types of a `LookupResponse`.
pub record IsLookupResponse (m : LookupResponse) : Type 0 where
  pub entry_ttl_ms : m.entry_ttl_ms < 2 ^ 32
  pub object_id : length m.object_id ≡ 16
  pub attr : IsAttr m.attr

-- `if resp.Found { … }` of the encoder
unfoldable pub found_part : Bool → LookupResponse → List ℕ
found_part true m = Encoder.object_id m.object_id ++ encode_attr m.attr
found_part false m = []

unfoldable pub encode_lookup_response : LookupResponse → List ℕ
unfolding found_part
encode_lookup_response m =
    Encoder.bool m.found ++ (Encoder.u32 m.entry_ttl_ms ++ found_part m.found m)

-- `if resp.Found { … }` of the decoder
unfoldable pub decode_found_part : Bool → ℕ → Decode LookupResponse
decode_found_part true entry_ttl_ms = do
  object_id ← Decoder.object_id
  attr ← decode_attr
  pure (record { found = true; entry_ttl_ms = entry_ttl_ms; object_id = object_id; attr = attr })
decode_found_part false entry_ttl_ms =
    pure
      (record { found = false; entry_ttl_ms = entry_ttl_ms; object_id = zero_id; attr = zero_attr })

unfoldable pub decode_lookup_response : List ℕ → Option LookupResponse
unfolding run decode_found_part
decode_lookup_response =
    run do found ← Decoder.bool; entry_ttl_ms ← Decoder.u32; decode_found_part found entry_ttl_ms

pub record GetAttrResponse : Type 0 where
  pub found : Bool
  pub attr_ttl_ms : ℕ  -- uint32
  pub attr : Attr

unfoldable pub encode_get_attr_response : GetAttrResponse → List ℕ
encode_get_attr_response m =
    Encoder.bool m.found
    ++ (Encoder.u32 m.attr_ttl_ms ++ (if m.found then encode_attr m.attr else []))

pub record DirEntry : Type 0 where
  pub name : Text
  pub object_id : List ℕ  -- [16]byte
  pub ino : ℕ  -- uint64
  pub mode : ℕ  -- uint32

-- The ranges of the Go types of a `DirEntry`.
pub record IsDirEntry (e : DirEntry) : Type 0 where
  pub name : length e.name < 2 ^ 32
  pub object_id : length e.object_id ≡ 16
  pub ino : e.ino < 2 ^ 64
  pub mode : e.mode < 2 ^ 32

pub record ReadDirResponse : Type 0 where
  pub dir_ttl_ms : ℕ  -- uint32
  pub next_cookie : ℕ  -- uint64
  pub eof : Bool
  pub entries : List DirEntry

-- The ranges of the Go types of a `ReadDirResponse`, with a number of entries that fits 32 bits.
pub record IsReadDirResponse (m : ReadDirResponse) : Type 0 where
  pub dir_ttl_ms : m.dir_ttl_ms < 2 ^ 32
  pub next_cookie : m.next_cookie < 2 ^ 64
  pub count : length m.entries < 2 ^ 32
  pub entries : All IsDirEntry m.entries

unfoldable pub encode_entry : DirEntry → List ℕ
encode_entry e =
    Encoder.str e.name
    ++ (Encoder.object_id e.object_id ++ (Encoder.u64 e.ino ++ Encoder.u32 e.mode))

unfoldable pub encode_entries : List DirEntry → List ℕ
unfolding encode_entry
encode_entries [] = []
encode_entries (e ∷ es) = encode_entry e ++ encode_entries es

unfoldable pub encode_read_dir_response : ReadDirResponse → List ℕ
unfolding encode_entries
encode_read_dir_response m =
    Encoder.u32 m.dir_ttl_ms
    ++ (Encoder.u64 m.next_cookie
        ++ (Encoder.bool m.eof ++ (Encoder.u32 (length m.entries) ++ encode_entries m.entries)))

unfoldable pub decode_entry : Decode DirEntry
decode_entry = do
  name ← Decoder.str
  object_id ← Decoder.object_id
  ino ← Decoder.u64
  mode ← Decoder.u32
  pure (record { name = name; object_id = object_id; ino = ino; mode = mode })

-- `for i := uint32(0); i < count; i++`, by the rounds that are left
unfoldable pub decode_entries : ℕ → Decode (List DirEntry)
unfolding decode_entry
decode_entries zero = pure []
decode_entries (suc n) = do entry ← decode_entry; entries ← decode_entries n; pure (entry ∷ entries)

-- The entries behind the header of a listing: the capacity of `make([]DirEntry, 0, count)`, which is 0
-- where nothing is allocated, and what the loop returns. A count above the bytes that are left is
-- refused before the allocation.
unfoldable pub counted : ℕ → List ℕ → ℕ × Option (List DirEntry × List ℕ)
unfolding decode_entries remaining
counted count d = if ltb (remaining d) count then (0, none) else (count, decode_entries count d)

pub counted_refused :
    (count : ℕ) (d : List ℕ) → ltb (length d) count ≡ true → counted count d ≡ (0, none)
unfolding counted remaining
counted_refused count d h = rw h

pub counted_kept :
    (count : ℕ) (d : List ℕ)
    → ltb (length d) count ≡ false
    → counted count d ≡ (count, decode_entries count d)
unfolding counted remaining
counted_kept count d h = rw h

-- The four fields in front of the entries.
pub record ReadDirHead : Type 0 where
  pub dir_ttl_ms : ℕ
  pub next_cookie : ℕ
  pub eof : Bool
  pub count : ℕ

unfoldable pub decode_read_dir_head : Decode ReadDirHead
decode_read_dir_head = do
  dir_ttl_ms ← Decoder.u32
  next_cookie ← Decoder.u64
  eof ← Decoder.bool
  count ← Decoder.u32
  pure (record { dir_ttl_ms = dir_ttl_ms; next_cookie = next_cookie; eof = eof; count = count })

abbrev pub with_entries : ReadDirHead → Option (List DirEntry × List ℕ) → Option ReadDirResponse
with_entries head none = none
with_entries head (some (entries, rest)) = some (record {
  dir_ttl_ms = head.dir_ttl_ms;
  next_cookie = head.next_cookie;
  eof = head.eof;
  entries = entries;
})

unfoldable pub read_dir_from : Option (ReadDirHead × List ℕ) → ℕ × Option ReadDirResponse
unfolding counted
read_dir_from none = (0, none)
read_dir_from (some (head, rest)) =
    let out = counted head.count rest in (out.0, with_entries head out.1)

-- The room that `DecodeReadDirResponse` allocates for entries, and its result.
unfoldable pub read_dir : List ℕ → ℕ × Option ReadDirResponse
unfolding decode_read_dir_head read_dir_from
read_dir bytes = read_dir_from (decode_read_dir_head bytes)

unfoldable pub decode_read_dir_response : List ℕ → Option ReadDirResponse
unfolding read_dir
decode_read_dir_response bytes = (read_dir bytes).1

pub record ReadResponse : Type 0 where
  pub eof : Bool
  pub bytes : List ℕ

unfoldable pub encode_read_response : ReadResponse → List ℕ
encode_read_response m = Encoder.bool m.eof ++ (Encoder.u32 (length m.bytes) ++ m.bytes)

unfoldable pub decode_read_response : List ℕ → Option ReadResponse
unfolding run
decode_read_response = run do
  eof ← Decoder.bool
  size ← Decoder.u32
  bytes ← fixed size (λ v. v)
  pure (record { eof = eof; bytes = bytes })
