-- ===== src/NativeProto/RoundTrip/Together.antt =====
-- The requests, and the replies of fixed shape, of internal/nativeproto/protocol.go, together.
use monofs.Prelude.{ℕ, ◌≡◌, none, some, List, ◌++◌, length, take, ltb, if◌then◌else◌}
use monofs.NativeProto.Session.{
  MountRequest, IsMountRequest, encode_mount_request, decode_mount_request, MountResponse,
  IsMountResponse, encode_mount_response, decode_mount_response,
}
use monofs.NativeProto.RoundTrip.Session.{decode_mount_request-encode, decode_mount_response-encode}
use monofs.NativeProto.Namespace.{
  LookupRequest, IsLookupRequest, encode_lookup_request, decode_lookup_request, GetAttrRequest,
  IsGetAttrRequest, encode_get_attr_request, decode_get_attr_request, ReadDirRequest,
  IsReadDirRequest, encode_read_dir_request, decode_read_dir_request, StatFsResponse,
  IsStatFsResponse, encode_stat_fs_response, decode_stat_fs_response,
}
use monofs.NativeProto.RoundTrip.Namespace.{
  decode_lookup_request-encode, decode_get_attr_request-encode, decode_read_dir_request-encode,
  decode_stat_fs_response-encode,
}
use monofs.NativeProto.Files.{
  OpenReadRequest, IsOpenReadRequest, encode_open_read_request, decode_open_read_request,
  ReadRequest, IsReadRequest, encode_read_request, decode_read_request, CloseRequest,
  IsCloseRequest, encode_close_request, decode_close_request, OpenReadResponse, IsOpenReadResponse,
  encode_open_read_response, decode_open_read_response,
}
use monofs.NativeProto.RoundTrip.Files.{
  decode_open_read_request-encode, decode_read_request-encode, decode_close_request-encode,
  decode_open_read_response-encode,
}

-- For the mount, lookup, attribute, directory, open, read and close requests: cut the encoding, with
-- anything behind it, at byte k. The decoder refuses a cut inside the encoding, and returns the
-- request after any other. Strings are shorter than 2 ^ 32 bytes, and numbers within their types.
pub decode_requests-encode :
    (rest : List ℕ) (k : ℕ) (mount_request : MountRequest) (lookup_request : LookupRequest)
    (get_attr_request : GetAttrRequest) (read_dir_request : ReadDirRequest)
    (open_read_request : OpenReadRequest) (read_request : ReadRequest)
    (close_request : CloseRequest)
    → IsMountRequest mount_request
    → IsLookupRequest lookup_request
    → IsGetAttrRequest get_attr_request
    → IsReadDirRequest read_dir_request
    → IsOpenReadRequest open_read_request
    → IsReadRequest read_request
    → IsCloseRequest close_request
    → (decode_mount_request (take k (encode_mount_request mount_request ++ rest)) ≡ (
        if ltb k (length (encode_mount_request mount_request)) then none else some mount_request))
      × (decode_lookup_request (take k (encode_lookup_request lookup_request ++ rest)) ≡ (
          if ltb k (length (encode_lookup_request lookup_request))
          then none
          else some lookup_request))
      × (decode_get_attr_request (take k (encode_get_attr_request get_attr_request ++ rest)) ≡ (
          if ltb k (length (encode_get_attr_request get_attr_request))
          then none
          else some get_attr_request))
      × (decode_read_dir_request (take k (encode_read_dir_request read_dir_request ++ rest)) ≡ (
          if ltb k (length (encode_read_dir_request read_dir_request))
          then none
          else some read_dir_request))
      × (decode_open_read_request (take k (encode_open_read_request open_read_request ++ rest)) ≡ (
          if ltb k (length (encode_open_read_request open_read_request))
          then none
          else some open_read_request))
      × (decode_read_request (take k (encode_read_request read_request ++ rest))
          ≡ (if ltb k (length (encode_read_request read_request)) then none else some read_request))
      × (decode_close_request (take k (encode_close_request close_request ++ rest)) ≡ (
          if ltb k (length (encode_close_request close_request)) then none else some close_request))
decode_requests-encode rest k mount_request lookup_request get_attr_request read_dir_request
      open_read_request read_request close_request h0 h1 h2 h3 h4 h5 h6 =
    (
      decode_mount_request-encode mount_request rest k h0,
      decode_lookup_request-encode lookup_request rest k h1,
      decode_get_attr_request-encode get_attr_request rest k h2,
      decode_read_dir_request-encode read_dir_request rest k h3,
      decode_open_read_request-encode open_read_request rest k h4,
      decode_read_request-encode read_request rest k h5,
      decode_close_request-encode close_request rest k h6,
    )

-- For the mount, statfs and open replies: cut the encoding, with anything behind it, at byte k. The
-- decoder refuses a cut inside the encoding, and returns the reply after any other. Numbers are
-- within their types.
pub decode_replies-encode :
    (rest : List ℕ) (k : ℕ) (stat_fs_response : StatFsResponse)
    (open_read_response : OpenReadResponse) (mount_response : MountResponse)
    → IsStatFsResponse stat_fs_response
    → IsOpenReadResponse open_read_response
    → IsMountResponse mount_response
    → (decode_stat_fs_response (take k (encode_stat_fs_response stat_fs_response ++ rest)) ≡ (
        if ltb k (length (encode_stat_fs_response stat_fs_response))
        then none
        else some stat_fs_response))
      × (decode_open_read_response (take k (encode_open_read_response open_read_response ++ rest))
          ≡ (if ltb k (length (encode_open_read_response open_read_response))
              then none
              else some open_read_response))
      × (decode_mount_response (take k (encode_mount_response mount_response ++ rest)) ≡ (
          if ltb k (length (encode_mount_response mount_response))
          then none
          else some mount_response))
decode_replies-encode rest k stat_fs_response open_read_response mount_response h0 h1 h2 = (
  decode_stat_fs_response-encode stat_fs_response rest k h0,
  decode_open_read_response-encode open_read_response rest k h1,
  decode_mount_response-encode mount_response rest k h2,
)
