-- ===== src/Examples/NativeProto.antt =====
-- Messages and frames of internal/nativeproto/protocol.go.
use monofs.Prelude.{
  ℕ, ◌-◌, ◌≤◌, ◌≡◌, refl, true, false, none, some, List, [], ◌∷◌, ◌++◌, ok, err, length, take,
  replicate, arith, codes,
}
use monofs.Prelude.Int.{pos, negsuc}
use monofs.NativeProto.Attr.{Attr}
use monofs.NativeProto.Session.{
  HelloRequest, encode_hello_request, decode_hello_request, MountRequest, MountResponse,
  encode_mount_request, decode_mount_request, encode_mount_response, decode_mount_response,
}
use monofs.NativeProto.Namespace.{
  LookupRequest, encode_lookup_request, decode_lookup_request, GetAttrRequest,
  encode_get_attr_request, decode_get_attr_request, ReadDirRequest, encode_read_dir_request,
  decode_read_dir_request, StatFsResponse, encode_stat_fs_response, decode_stat_fs_response,
}
use monofs.NativeProto.Files.{
  OpenReadRequest, encode_open_read_request, decode_open_read_request, OpenReadResponse,
  encode_open_read_response, decode_open_read_response, ReadRequest, encode_read_request,
  decode_read_request, CloseRequest, encode_close_request, decode_close_request,
}
use monofs.NativeProto.Replies.{
  LookupResponse, encode_lookup_response, decode_lookup_response, ReadDirResponse,
  encode_read_dir_response, read_dir, decode_read_dir_response, ReadResponse, encode_read_response,
  decode_read_response, zero_attr, zero_id,
}
use monofs.NativeProto.RoundTrip.Session.{decode_hello_request-encode}
use monofs.NativeProto.RoundTrip.Replies.{
  decode_lookup_response-encode, decode_read_dir_response-encode, decode_read_response-encode,
}
use monofs.NativeProto.RoundTrip.Together.{decode_requests-encode, decode_replies-encode}
use monofs.NativeProto.Consumes.{Filled, read_dir-Filled}
use monofs.NativeProto.Frame.{Header, eof, read_frame, seal, write_frame}
use monofs.NativeProto.Frame.RoundTrip.{buffer, read_frame-write_frame, read_frame_cut}

abbrev hello : HelloRequest
hello = record {
  min_version = 1;
  max_version = 2;
  requested_caps = 3;
  client_kind = codes "kmod";
  client_version = codes "1.2";
  kernel_release = codes "6.8";
}

-- Cut inside the kernel release.
decode_hello_request-encode_example :
    decode_hello_request (take 33 (encode_hello_request hello ++ [])) ≡ none
unfolding encode_hello_request monofs.NativeProto.Encoder.u16 monofs.NativeProto.Encoder.u64
    monofs.NativeProto.Encoder.str monofs.NativeProto.Encoder.u32
decode_hello_request-encode_example = decode_hello_request-encode hello [] 33 (omega arith)

abbrev id : List ℕ
id = replicate 16 7

abbrev attr : Attr
attr = record {
  ino = 9;
  mode = 33188;
  size = 4096;
  mtime = pos 1_700_000_000;
  atime = negsuc 0;
  ctime = pos 0;
  nlink = 1;
  uid = 0;
  gid = 0;
}

abbrev found : LookupResponse
found = record { found = false; entry_ttl_ms = 500; object_id = id; attr = attr }

-- A negative reply loses its object.
decode_lookup_response-encode_example :
    decode_lookup_response (take 99 (encode_lookup_response found ++ 1 ∷ 2 ∷ []))
    ≡ some (record { found = false; entry_ttl_ms = 500; object_id = zero_id; attr = zero_attr })
unfolding encode_lookup_response monofs.NativeProto.Encoder.bool monofs.NativeProto.Encoder.u8
    monofs.NativeProto.Encoder.u32
decode_lookup_response-encode_example =
    decode_lookup_response-encode found (1 ∷ 2 ∷ []) 99 (omega arith)

abbrev listing : ReadDirResponse
listing = record {
  dir_ttl_ms = 1000;
  next_cookie = 2;
  eof = true;
  entries =
      record { name = codes "a"; object_id = id; ino = 1; mode = 16877 }
      ∷ record { name = codes "go.mod"; object_id = id; ino = 2; mode = 33188 }
      ∷ [];
}

decode_read_dir_response-encode_example :
    decode_read_dir_response (take 200 (encode_read_dir_response listing ++ [])) ≡ some listing
unfolding encode_read_dir_response monofs.NativeProto.Encoder.u32 monofs.NativeProto.Encoder.u64
    monofs.NativeProto.Encoder.bool monofs.NativeProto.Encoder.u8 monofs.NativeProto.Encoder.str
    monofs.NativeProto.Encoder.object_id
decode_read_dir_response-encode_example =
    decode_read_dir_response-encode listing [] 200 (omega arith)

read_dir-Filled_example :
    ((read_dir (encode_read_dir_response listing)).0
      ≤ length (encode_read_dir_response listing) - 17)
    × Filled
        (length (encode_read_dir_response listing))
        (read_dir (encode_read_dir_response listing)).0
        (decode_read_dir_response (encode_read_dir_response listing))
read_dir-Filled_example = read_dir-Filled (encode_read_dir_response listing)

-- A frame that claims 2 ^ 32 - 1 entries and holds none.
abbrev lying : List ℕ
lying = replicate 13 0 ++ (255 ∷ 255 ∷ 255 ∷ 255 ∷ [])

lying_allocates_nothing : read_dir lying ≡ (0, none)
unfolding read_dir monofs.NativeProto.Decoder.◌>>=◌ monofs.NativeProto.Decoder.u32
    monofs.NativeProto.Decoder.u64 monofs.NativeProto.Decoder.bool monofs.NativeProto.Decoder.u8
lying_allocates_nothing = refl

-- A frame that claims 3 entries and has 3 bytes behind its head.
abbrev cut_short : List ℕ
cut_short = replicate 13 0 ++ (3 ∷ 0 ∷ 0 ∷ 0 ∷ replicate 3 0)

cut_short_allocates : read_dir cut_short ≡ (3, none)
unfolding read_dir monofs.NativeProto.Decoder.◌>>=◌ monofs.NativeProto.Decoder.u32
    monofs.NativeProto.Decoder.u64 monofs.NativeProto.Decoder.bool monofs.NativeProto.Decoder.u8
    monofs.NativeProto.Decoder.str
cut_short_allocates = refl

abbrev data_block : ReadResponse
data_block = record { eof = false; bytes = codes "package main" }

decode_read_response-encode_example :
    decode_read_response (take 16 (encode_read_response data_block ++ [])) ≡ none
unfolding encode_read_response monofs.NativeProto.Encoder.bool monofs.NativeProto.Encoder.u8
    monofs.NativeProto.Encoder.u32
decode_read_response-encode_example = decode_read_response-encode data_block [] 16 (omega arith)

abbrev mount : MountRequest
mount = record { client_id = codes "c1"; hostname = codes "h"; auth_token = []; mount_flags = 1 }

abbrev lookup : LookupRequest
lookup = record { parent_object_id = id; name = codes "src" }

abbrev get_attr : GetAttrRequest
get_attr = record { object_id = id }

abbrev read_dir_call : ReadDirRequest
read_dir_call = record { dir_object_id = id; cookie = 0; max_entries = 64; max_bytes = 65536 }

abbrev open_read : OpenReadRequest
open_read = record { object_id = id }

abbrev read : ReadRequest
read = record { handle_id = 4; offset = 8192; length = 4096 }

abbrev close : CloseRequest
close = record { handle_id = 4 }

decode_requests-encode_example :
    (decode_mount_request (take 30 (encode_mount_request mount ++ [])) ≡ some mount)
    × (decode_lookup_request (take 30 (encode_lookup_request lookup ++ [])) ≡ some lookup)
    × (decode_get_attr_request (take 30 (encode_get_attr_request get_attr ++ [])) ≡ some get_attr)
    × (decode_read_dir_request (take 30 (encode_read_dir_request read_dir_call ++ [])) ≡ none)
    × (decode_open_read_request (take 30 (encode_open_read_request open_read ++ []))
        ≡ some open_read)
    × (decode_read_request (take 30 (encode_read_request read ++ [])) ≡ some read)
    × (decode_close_request (take 30 (encode_close_request close ++ [])) ≡ some close)
unfolding encode_mount_request encode_lookup_request encode_get_attr_request encode_read_dir_request
    encode_open_read_request encode_read_request encode_close_request monofs.NativeProto.Encoder.u32
    monofs.NativeProto.Encoder.object_id monofs.NativeProto.Encoder.u64
    monofs.NativeProto.Encoder.str
decode_requests-encode_example =
    decode_requests-encode [] 30 mount lookup get_attr read_dir_call open_read read close
      (omega arith) (omega arith) (omega arith) (omega arith) (omega arith) (omega arith)
      (omega arith)

abbrev stat_fs : StatFsResponse
stat_fs = record {
  blocks = 10;
  bfree = 5;
  bavail = 5;
  files = 3;
  ffree = 2;
  bsize = 4096;
  frsize = 4096;
  name_len = 255;
}

abbrev open_reply : OpenReadResponse
open_reply = record { handle_id = 4; attr = attr; route_ttl_ms = 250 }

abbrev mounted : MountResponse
mounted = record {
  cluster_version = 12;
  namespace_generation = 3;
  guardian_visible = true;
  root_object_id = id;
  root = attr;
  entry_ttl_ms = 1;
  attr_ttl_ms = 2;
  dir_ttl_ms = 3;
  route_ttl_ms = 4;
}

decode_replies-encode_example :
    (decode_stat_fs_response (take 80 (encode_stat_fs_response stat_fs ++ [])) ≡ some stat_fs)
    × (decode_open_read_response (take 80 (encode_open_read_response open_reply ++ []))
        ≡ some open_reply)
    × (decode_mount_response (take 80 (encode_mount_response mounted ++ [])) ≡ none)
unfolding encode_stat_fs_response encode_open_read_response encode_mount_response
    monofs.NativeProto.Encoder.u64 monofs.NativeProto.Encoder.u32
    monofs.NativeProto.Attr.encode_attr monofs.NativeProto.Encoder.bool
    monofs.NativeProto.Encoder.i64 monofs.NativeProto.Encoder.u8
    monofs.NativeProto.Encoder.object_id
decode_replies-encode_example =
    decode_replies-encode [] 80 stat_fs open_reply mounted (omega arith) (omega arith) (omega arith)

abbrev header : Header
header = record {
  magic = 0;
  version = 0;
  opcode = 0x21;
  flags = 1;
  header_len = 0;
  body_len = 0;
  request_id = 77;
  session_id = 8;
  status = 0;
  reserved = 0;
  generation = 5;
}

read_frame-write_frame_example :
    read_frame ((write_frame buffer header (codes "abc") []).1 ++ 9 ∷ [])
    ≡ ok (seal header (codes "abc"), codes "abc", 9 ∷ [])
read_frame-write_frame_example =
    read_frame-write_frame header (codes "abc") (9 ∷ []) (omega arith) (omega arith)

-- Cut behind the header: the error is io.EOF.
read_frame_cut_example :
    read_frame (take 52 (write_frame buffer header (codes "abc") []).1) ≡ err eof
unfolding write_frame monofs.NativeProto.Encoder.u32 monofs.NativeProto.Encoder.u16
    monofs.NativeProto.Encoder.u64
read_frame_cut_example =
    read_frame_cut header (codes "abc") 52 (omega arith) (omega arith) (omega arith)
