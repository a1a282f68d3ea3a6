-- ===== src/NativeProto/RoundTrip/Files.antt =====
-- The messages on open files of internal/nativeproto/protocol.go. What the encoders write, the decoders read.
use monofs.Prelude.{ℕ, ◌≡◌, refl, none, some, List, ◌++◌, length, take, ltb, if◌then◌else◌}
use monofs.NativeProto.Attr.{attr-Reads, run-Reads}
use monofs.NativeProto.Reads.{bind-Reads, return-Reads, u32-Reads, u64-Reads, object_id-Reads}
use monofs.NativeProto.Files.{
  OpenReadRequest, IsOpenReadRequest, encode_open_read_request, decode_open_read_request,
  OpenReadResponse, IsOpenReadResponse, encode_open_read_response, decode_open_read_response,
  ReadRequest, IsReadRequest, encode_read_request, decode_read_request, CloseRequest,
  IsCloseRequest, encode_close_request, decode_close_request,
}

-- Cut the encoding of a `OpenReadRequest`, with anything behind it, at any byte: the decoder refuses a cut
-- inside the encoding, and returns the request after any other.
pub decode_open_read_request-encode :
    (m : OpenReadRequest) (rest : List ℕ) (k : ℕ)
    → IsOpenReadRequest m
    → decode_open_read_request (take k (encode_open_read_request m ++ rest))
      ≡ (if ltb k (length (encode_open_read_request m)) then none else some m)
unfolding decode_open_read_request encode_open_read_request
decode_open_read_request-encode m rest k h =
    run-Reads k rest (return-Reads _ m (object_id-Reads m.object_id h.object_id) refl)

-- Cut the encoding of a `OpenReadResponse`, with anything behind it, at any byte: the decoder refuses a cut
-- inside the encoding, and returns the response after any other.
pub decode_open_read_response-encode :
    (m : OpenReadResponse) (rest : List ℕ) (k : ℕ)
    → IsOpenReadResponse m
    → decode_open_read_response (take k (encode_open_read_response m ++ rest))
      ≡ (if ltb k (length (encode_open_read_response m)) then none else some m)
unfolding decode_open_read_response encode_open_read_response
decode_open_read_response-encode m rest k h = run-Reads k rest (
    bind-Reads _ (u64-Reads m.handle_id h.handle_id) (
      bind-Reads _ (attr-Reads m.attr h.attr)
        (return-Reads _ m (u32-Reads m.route_ttl_ms h.route_ttl_ms) refl)))

-- Cut the encoding of a `ReadRequest`, with anything behind it, at any byte: the decoder refuses a cut
-- inside the encoding, and returns the request after any other.
pub decode_read_request-encode :
    (m : ReadRequest) (rest : List ℕ) (k : ℕ)
    → IsReadRequest m
    → decode_read_request (take k (encode_read_request m ++ rest))
      ≡ (if ltb k (length (encode_read_request m)) then none else some m)
unfolding decode_read_request encode_read_request
decode_read_request-encode m rest k h = run-Reads k rest (
    bind-Reads _ (u64-Reads m.handle_id h.handle_id) (
      bind-Reads _ (u64-Reads m.offset h.offset)
        (return-Reads _ m (u32-Reads m.length h.length) refl)))

-- Cut the encoding of a `CloseRequest`, with anything behind it, at any byte: the decoder refuses a cut
-- inside the encoding, and returns the request after any other.
pub decode_close_request-encode :
    (m : CloseRequest) (rest : List ℕ) (k : ℕ)
    → IsCloseRequest m
    → decode_close_request (take k (encode_close_request m ++ rest))
      ≡ (if ltb k (length (encode_close_request m)) then none else some m)
unfolding decode_close_request encode_close_request
decode_close_request-encode m rest k h =
    run-Reads k rest (return-Reads _ m (u64-Reads m.handle_id h.handle_id) refl)
