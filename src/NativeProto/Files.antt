-- ===== src/NativeProto/Files.antt =====
-- The messages on open files of internal/nativeproto/protocol.go.
use monofs.Prelude.{ℕ, ◌^◌, ◌<◌, ◌≡◌, Option, List, ◌++◌, length}
use monofs.NativeProto.Encoder
use monofs.NativeProto.Decoder
use monofs.NativeProto.Decoder.{◌>>=◌, pure}
use monofs.NativeProto.Attr.{Attr, IsAttr, encode_attr, decode_attr, run}

pub record OpenReadRequest : Type 0 where
  pub object_id : List ℕ  -- [16]byte

-- The ranges of the Go types of a `OpenReadRequest`.
pub record IsOpenReadRequest (m : OpenReadRequest) : Type 0 where
  pub object_id : length m.object_id ≡ 16

unfoldable pub encode_open_read_request : OpenReadRequest → List ℕ
encode_open_read_request m = Encoder.object_id m.object_id

unfoldable pub decode_open_read_request : List ℕ → Option OpenReadRequest
unfolding run
decode_open_read_request =
    run do object_id ← Decoder.object_id; pure (record { object_id = object_id })

pub record OpenReadResponse : Type 0 where
  pub handle_id : ℕ  -- uint64
  pub attr : Attr
  pub route_ttl_ms : ℕ  -- uint32

-- The ranges of the Go types of a `OpenReadResponse`.
pub record IsOpenReadResponse (m : OpenReadResponse) : Type 0 where
  pub handle_id : m.handle_id < 2 ^ 64
  pub attr : IsAttr m.attr
  pub route_ttl_ms : m.route_ttl_ms < 2 ^ 32

unfoldable pub encode_open_read_response : OpenReadResponse → List ℕ
encode_open_read_response m =
    Encoder.u64 m.handle_id ++ (encode_attr m.attr ++ Encoder.u32 m.route_ttl_ms)

unfoldable pub decode_open_read_response : List ℕ → Option OpenReadResponse
unfolding run
decode_open_read_response = run do
  handle_id ← Decoder.u64
  attr ← decode_attr
  route_ttl_ms ← Decoder.u32
  pure (record { handle_id = handle_id; attr = attr; route_ttl_ms = route_ttl_ms })

pub record ReadRequest : Type 0 where
  pub handle_id : ℕ  -- uint64
  pub offset : ℕ  -- uint64
  pub length : ℕ  -- uint32

-- The ranges of the Go types of a `ReadRequest`.
pub record IsReadRequest (m : ReadRequest) : Type 0 where
  pub handle_id : m.handle_id < 2 ^ 64
  pub offset : m.offset < 2 ^ 64
  pub length : m.length < 2 ^ 32

unfoldable pub encode_read_request : ReadRequest → List ℕ
encode_read_request m = Encoder.u64 m.handle_id ++ (Encoder.u64 m.offset ++ Encoder.u32 m.length)

unfoldable pub decode_read_request : List ℕ → Option ReadRequest
unfolding run
decode_read_request = run do
  handle_id ← Decoder.u64
  offset ← Decoder.u64
  length ← Decoder.u32
  pure (record { handle_id = handle_id; offset = offset; length = length })

pub record CloseRequest : Type 0 where
  pub handle_id : ℕ  -- uint64

-- The ranges of the Go types of a `CloseRequest`.
pub record IsCloseRequest (m : CloseRequest) : Type 0 where
  pub handle_id : m.handle_id < 2 ^ 64

unfoldable pub encode_close_request : CloseRequest → List ℕ
encode_close_request m = Encoder.u64 m.handle_id

unfoldable pub decode_close_request : List ℕ → Option CloseRequest
unfolding run
decode_close_request = run do handle_id ← Decoder.u64; pure (record { handle_id = handle_id })
