-- ===== src/NativeProto/RoundTrip/Namespace.antt =====
-- The fixed messages on names and attributes of internal/nativeproto/protocol.go. What the encoders write, the decoders read.
use monofs.Prelude.{ℕ, ◌≡◌, refl, none, some, List, ◌++◌, length, take, ltb, if◌then◌else◌}
use monofs.NativeProto.Attr.{run-Reads}
use monofs.NativeProto.Reads.{
  bind-Reads, return-Reads, u32-Reads, u64-Reads, object_id-Reads, str-Reads,
}
use monofs.NativeProto.Namespace.{
  LookupRequest, IsLookupRequest, encode_lookup_request, decode_lookup_request, GetAttrRequest,
  IsGetAttrRequest, encode_get_attr_request, decode_get_attr_request, ReadDirRequest,
  IsReadDirRequest, encode_read_dir_request, decode_read_dir_request, StatFsResponse,
  IsStatFsResponse, encode_stat_fs_response, decode_stat_fs_response,
}

-- Cut the encoding of a `LookupRequest`, with anything behind it, at any byte: the decoder refuses a cut
-- inside the encoding, and returns the request after any other.
pub decode_lookup_request-encode :
    (m : LookupRequest) (rest : List ℕ) (k : ℕ)
    → IsLookupRequest m
    → decode_lookup_request (take k (encode_lookup_request m ++ rest))
      ≡ (if ltb k (length (encode_lookup_request m)) then none else some m)
unfolding decode_lookup_request encode_lookup_request
decode_lookup_request-encode m rest k h = run-Reads k rest (
    bind-Reads _ (object_id-Reads m.parent_object_id h.parent_object_id)
      (return-Reads _ m (str-Reads m.name h.name) refl))

-- Cut the encoding of a `GetAttrRequest`, with anything behind it, at any byte: the decoder refuses a cut
-- inside the encoding, and returns the request after any other.
pub decode_get_attr_request-encode :
    (m : GetAttrRequest) (rest : List ℕ) (k : ℕ)
    → IsGetAttrRequest m
    → decode_get_attr_request (take k (encode_get_attr_request m ++ rest))
      ≡ (if ltb k (length (encode_get_attr_request m)) then none else some m)
unfolding decode_get_attr_request encode_get_attr_request
decode_get_attr_request-encode m rest k h =
    run-Reads k rest (return-Reads _ m (object_id-Reads m.object_id h.object_id) refl)

-- Cut the encoding of a `ReadDirRequest`, with anything behind it, at any byte: the decoder refuses a cut
-- inside the encoding, and returns the request after any other.
pub decode_read_dir_request-encode :
    (m : ReadDirRequest) (rest : List ℕ) (k : ℕ)
    → IsReadDirRequest m
    → decode_read_dir_request (take k (encode_read_dir_request m ++ rest))
      ≡ (if ltb k (length (encode_read_dir_request m)) then none else some m)
unfolding decode_read_dir_request encode_read_dir_request
decode_read_dir_request-encode m rest k h = run-Reads k rest (
    bind-Reads _ (object_id-Reads m.dir_object_id h.dir_object_id) (
      bind-Reads _ (u64-Reads m.cookie h.cookie) (
        bind-Reads _ (u32-Reads m.max_entries h.max_entries)
          (return-Reads _ m (u32-Reads m.max_bytes h.max_bytes) refl))))

-- Cut the encoding of a `StatFsResponse`, with anything behind it, at any byte: the decoder refuses a cut
-- inside the encoding, and returns the response after any other.
pub decode_stat_fs_response-encode :
    (m : StatFsResponse) (rest : List ℕ) (k : ℕ)
    → IsStatFsResponse m
    → decode_stat_fs_response (take k (encode_stat_fs_response m ++ rest))
      ≡ (if ltb k (length (encode_stat_fs_response m)) then none else some m)
unfolding decode_stat_fs_response encode_stat_fs_response
decode_stat_fs_response-encode m rest k h = run-Reads k rest (
    bind-Reads _ (u64-Reads m.blocks h.blocks) (
      bind-Reads _ (u64-Reads m.bfree h.bfree) (
        bind-Reads _ (u64-Reads m.bavail h.bavail) (
          bind-Reads _ (u64-Reads m.files h.files) (
            bind-Reads _ (u64-Reads m.ffree h.ffree) (
              bind-Reads _ (u32-Reads m.bsize h.bsize) (
                bind-Reads _ (u32-Reads m.frsize h.frsize)
                  (return-Reads _ m (u32-Reads m.name_len h.name_len) refl))))))))
