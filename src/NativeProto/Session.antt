-- ===== src/NativeProto/Session.antt =====
-- The hello and mount messages of internal/nativeproto/protocol.go.
use monofs.Prelude.{ℕ, ◌^◌, ◌<◌, ◌≡◌, Bool, Option, List, ◌++◌, length, Text}
use monofs.NativeProto.Encoder
use monofs.NativeProto.Decoder
use monofs.NativeProto.Decoder.{◌>>=◌, pure}
use monofs.NativeProto.Attr.{Attr, IsAttr, encode_attr, decode_attr, run}

pub record HelloRequest : Type 0 where
  pub min_version : ℕ  -- uint16
  pub max_version : ℕ  -- uint16
  pub requested_caps : ℕ  -- uint64
  pub client_kind : Text
  pub client_version : Text
  pub kernel_release : Text

-- The ranges of the Go types of a `HelloRequest`.
pub record IsHelloRequest (m : HelloRequest) : Type 0 where
  pub min_version : m.min_version < 2 ^ 16
  pub max_version : m.max_version < 2 ^ 16
  pub requested_caps : m.requested_caps < 2 ^ 64
  pub client_kind : length m.client_kind < 2 ^ 32
  pub client_version : length m.client_version < 2 ^ 32
  pub kernel_release : length m.kernel_release < 2 ^ 32

unfoldable pub encode_hello_request : HelloRequest → List ℕ
encode_hello_request m =
    Encoder.u16 m.min_version
    ++ (Encoder.u16 m.max_version
        ++ (Encoder.u64 m.requested_caps
            ++ (Encoder.str m.client_kind
                ++ (Encoder.str m.client_version ++ Encoder.str m.kernel_release))))

unfoldable pub decode_hello_request : List ℕ → Option HelloRequest
unfolding run
decode_hello_request = run do
  min_version ← Decoder.u16
  max_version ← Decoder.u16
  requested_caps ← Decoder.u64
  client_kind ← Decoder.str
  client_version ← Decoder.str
  kernel_release ← Decoder.str
  pure (record {
    min_version = min_version;
    max_version = max_version;
    requested_caps = requested_caps;
    client_kind = client_kind;
    client_version = client_version;
    kernel_release = kernel_release;
  })

pub record HelloResponse : Type 0 where
  pub selected_version : ℕ  -- uint16
  pub server_caps : ℕ  -- uint64
  pub max_frame_bytes : ℕ  -- uint32
  pub max_read_bytes : ℕ  -- uint32

unfoldable pub encode_hello_response : HelloResponse → List ℕ
encode_hello_response m =
    Encoder.u16 m.selected_version
    ++ (Encoder.u64 m.server_caps
        ++ (Encoder.u32 m.max_frame_bytes ++ Encoder.u32 m.max_read_bytes))

pub record MountRequest : Type 0 where
  pub client_id : Text
  pub hostname : Text
  pub auth_token : Text
  pub mount_flags : ℕ  -- uint32

-- The ranges of the Go types of a `MountRequest`.
pub record IsMountRequest (m : MountRequest) : Type 0 where
  pub client_id : length m.client_id < 2 ^ 32
  pub hostname : length m.hostname < 2 ^ 32
  pub auth_token : length m.auth_token < 2 ^ 32
  pub mount_flags : m.mount_flags < 2 ^ 32

unfoldable pub encode_mount_request : MountRequest → List ℕ
encode_mount_request m =
    Encoder.u32 m.mount_flags
    ++ (Encoder.str m.client_id ++ (Encoder.str m.hostname ++ Encoder.str m.auth_token))

unfoldable pub decode_mount_request : List ℕ → Option MountRequest
unfolding run
decode_mount_request = run do
  mount_flags ← Decoder.u32
  client_id ← Decoder.str
  hostname ← Decoder.str
  auth_token ← Decoder.str
  pure (record {
    client_id = client_id;
    hostname = hostname;
    auth_token = auth_token;
    mount_flags = mount_flags;
  })

pub record MountResponse : Type 0 where
  pub cluster_version : ℕ  -- uint64
  pub namespace_generation : ℕ  -- uint64
  pub guardian_visible : Bool
  pub root_object_id : List ℕ  -- [16]byte
  pub root : Attr
  pub entry_ttl_ms : ℕ  -- uint32
  pub attr_ttl_ms : ℕ  -- uint32
  pub dir_ttl_ms : ℕ  -- uint32
  pub route_ttl_ms : ℕ  -- uint32

-- The ranges of the Go types of a `MountResponse`.
pub record IsMountResponse (m : MountResponse) : Type 0 where
  pub cluster_version : m.cluster_version < 2 ^ 64
  pub namespace_generation : m.namespace_generation < 2 ^ 64
  pub root_object_id : length m.root_object_id ≡ 16
  pub root : IsAttr m.root
  pub entry_ttl_ms : m.entry_ttl_ms < 2 ^ 32
  pub attr_ttl_ms : m.attr_ttl_ms < 2 ^ 32
  pub dir_ttl_ms : m.dir_ttl_ms < 2 ^ 32
  pub route_ttl_ms : m.route_ttl_ms < 2 ^ 32

unfoldable pub encode_mount_response : MountResponse → List ℕ
encode_mount_response m =
    Encoder.u64 m.cluster_version
    ++ (Encoder.u64 m.namespace_generation
        ++ (Encoder.bool m.guardian_visible
            ++ (Encoder.object_id m.root_object_id
                ++ (encode_attr m.root
                    ++ (Encoder.u32 m.entry_ttl_ms
                        ++ (Encoder.u32 m.attr_ttl_ms
                            ++ (Encoder.u32 m.dir_ttl_ms ++ Encoder.u32 m.route_ttl_ms)))))))

unfoldable pub decode_mount_response : List ℕ → Option MountResponse
unfolding run
decode_mount_response = run do
  cluster_version ← Decoder.u64
  namespace_generation ← Decoder.u64
  guardian_visible ← Decoder.bool
  root_object_id ← Decoder.object_id
  root ← decode_attr
  entry_ttl_ms ← Decoder.u32
  attr_ttl_ms ← Decoder.u32
  dir_ttl_ms ← Decoder.u32
  route_ttl_ms ← Decoder.u32
  pure (record {
    cluster_version = cluster_version;
    namespace_generation = namespace_generation;
    guardian_visible = guardian_visible;
    root_object_id = root_object_id;
    root = root;
    entry_ttl_ms = entry_ttl_ms;
    attr_ttl_ms = attr_ttl_ms;
    dir_ttl_ms = dir_ttl_ms;
    route_ttl_ms = route_ttl_ms;
  })
