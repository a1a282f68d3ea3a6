-- ===== src/NativeProto/Frame.antt =====
-- Frames: ReadFrame and WriteFrame of internal/nativeproto/protocol.go. A reader is the list of the
-- bytes that are still to come; a writer is a state with a parameter `write`.
pub mod RoundTrip
use monofs.Prelude.{
  ℕ, ◌-◌, ◌*◌, ◌^◌, ◌<◌, Bool, true, false, not, Option, none, some, List, [], ◌∷◌, ◌++◌, length,
  take, drop, ltb, ◌==◌, if◌then◌else◌, Result, ok, err,
}
use mathlib.Core.Option
use monofs.NativeProto.Encoder
use monofs.NativeProto.Encoder.{le_value}

abbrev pub frame_magic : ℕ
frame_magic = 0x53464e4d

abbrev pub version1 : ℕ
version1 = 1

abbrev pub header_size : ℕ
header_size = 52

abbrev pub max_frame_bytes : ℕ
max_frame_bytes = 2 ^ 20

pub record Header : Type 0 where
  pub magic : ℕ  -- uint32
  pub version : ℕ  -- uint16
  pub opcode : ℕ  -- uint16
  pub flags : ℕ  -- uint32
  pub header_len : ℕ  -- uint32
  pub body_len : ℕ  -- uint32
  pub request_id : ℕ  -- uint64
  pub session_id : ℕ  -- uint64
  pub status : ℕ  -- uint32
  pub reserved : ℕ  -- uint32
  pub generation : ℕ  -- uint64

pub data FrameError : Type 0 where
  eof unexpected_eof : FrameError
  bad_magic bad_version bad_header_len body_too_large : ℕ → FrameError

-- `io.ReadFull` into a slice of `n` bytes.
unfoldable pub read_full : ℕ → List ℕ → Result FrameError (List ℕ × List ℕ)
read_full n r =
    if n == 0
    then ok ([], r)
    else if length r == 0
    then err eof
    else if ltb (length r) n
    then err unexpected_eof
    else ok (take n r, drop n r)

-- `raw[from:to]`
abbrev pub slice : ℕ → ℕ → List ℕ → List ℕ
slice from to raw = take (to - from) (drop from raw)

unfoldable pub parse_header : List ℕ → Header
unfolding le_value
parse_header raw = record {
  magic = le_value (slice 0 4 raw);
  version = le_value (slice 4 6 raw);
  opcode = le_value (slice 6 8 raw);
  flags = le_value (slice 8 12 raw);
  header_len = le_value (slice 12 16 raw);
  body_len = le_value (slice 16 20 raw);
  request_id = le_value (slice 20 28 raw);
  session_id = le_value (slice 28 36 raw);
  status = le_value (slice 36 40 raw);
  reserved = le_value (slice 40 44 raw);
  generation = le_value (slice 44 52 raw);
}

-- the checks on the header, in their order
unfoldable pub header_error : Header → Option FrameError
header_error hdr =
    if not (hdr.magic == frame_magic)
    then some (bad_magic hdr.magic)
    else if not (hdr.version == version1)
    then some (bad_version hdr.version)
    else if not (hdr.header_len == header_size)
    then some (bad_header_len hdr.header_len)
    else if ltb max_frame_bytes hdr.body_len
    then some (body_too_large hdr.body_len)
    else none

abbrev with_body :
    Header → Result FrameError (List ℕ × List ℕ) → Result FrameError (Header × List ℕ × List ℕ)
with_body hdr (ok (body, rest)) = ok (hdr, body, rest)
with_body hdr (err e) = err e

unfoldable pub read_body :
    Header → List ℕ → Option FrameError → Result FrameError (Header × List ℕ × List ℕ)
unfolding read_full
read_body hdr r (some e) = err e
read_body hdr r none = with_body hdr (read_full hdr.body_len r)

abbrev after_header :
    Result FrameError (List ℕ × List ℕ) → Result FrameError (Header × List ℕ × List ℕ)
after_header (ok (raw, rest)) = read_body (parse_header raw) rest (header_error (parse_header raw))
after_header (err e) = err e

-- The header, the body, and what is left of the stream.
unfoldable pub read_frame : List ℕ → Result FrameError (Header × List ℕ × List ℕ)
unfolding read_full parse_header header_error read_body
read_frame r = after_header (read_full header_size r)

-- the fields that `WriteFrame` sets
unfoldable pub seal : Header → List ℕ → Header
seal hdr body = record hdr {
  magic = frame_magic;
  version = version1;
  header_len = header_size;
  body_len = length body;
}

unfoldable pub header_bytes : Header → List ℕ
header_bytes hdr =
    Encoder.u32 hdr.magic
    ++ (Encoder.u16 hdr.version
        ++ (Encoder.u16 hdr.opcode
            ++ (Encoder.u32 hdr.flags
                ++ (Encoder.u32 hdr.header_len
                    ++ (Encoder.u32 hdr.body_len
                        ++ (Encoder.u64 hdr.request_id
                            ++ (Encoder.u64 hdr.session_id
                                ++ (Encoder.u32 hdr.status
                                    ++ (Encoder.u32 hdr.reserved
                                        ++ Encoder.u64 hdr.generation)))))))))

pub data WriteError (E : Type 0) : Type 0 where
  too_large : ℕ → WriteError E
  failed : E → WriteError E

-- `w.Write`: the error, if there is one, and the writer behind it.
abbrev pub Write : Type 0 → Type 0 → Type 0
Write E W = List ℕ → W → Option E × W

module _ {E W : Type 0} (write : Write E W) where
  abbrev write_body : List ℕ → Option E × W → Option (WriteError E) × W
  write_body body (some e, w) = (some (failed e), w)
  write_body [] (none, w) = (none, w)
  write_body (b ∷ bs) (none, w) = let (e, w') = write (b ∷ bs) w in (Option.map failed e, w')

  unfoldable pub write_frame : Header → List ℕ → W → Option (WriteError E) × W
  unfolding seal header_bytes
  write_frame hdr body w =
      if ltb max_frame_bytes (length body)
      then (some (too_large (length body)), w)
      else write_body body (write (header_bytes (seal hdr body)) w)
