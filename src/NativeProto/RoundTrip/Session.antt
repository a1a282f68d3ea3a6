-- ===== src/NativeProto/RoundTrip/Session.antt =====
-- The hello and mount messages of internal/nativeproto/protocol.go. What the encoders write, the decoders read.
use monofs.Prelude.{ℕ, ◌≡◌, refl, none, some, List, ◌++◌, length, take, ltb, if◌then◌else◌}
use monofs.NativeProto.Attr.{attr-Reads, run-Reads}
use monofs.NativeProto.Reads.{
  bind-Reads, return-Reads, u16-Reads, u32-Reads, u64-Reads, bool-Reads, object_id-Reads, str-Reads,
}
use monofs.NativeProto.Session.{
  HelloRequest, IsHelloRequest, encode_hello_request, decode_hello_request, MountRequest,
  IsMountRequest, encode_mount_request, decode_mount_request, MountResponse, IsMountResponse,
  encode_mount_response, decode_mount_response,
}

-- Cut the encoding of a `HelloRequest`, with anything behind it, at any byte: the decoder refuses a cut
-- inside the encoding, and returns the request after any other.
pub decode_hello_request-encode :
    (m : HelloRequest) (rest : List ℕ) (k : ℕ)
    → IsHelloRequest m
    → decode_hello_request (take k (encode_hello_request m ++ rest))
      ≡ (if ltb k (length (encode_hello_request m)) then none else some m)
unfolding decode_hello_request encode_hello_request
decode_hello_request-encode m rest k h = run-Reads k rest (
    bind-Reads _ (u16-Reads m.min_version h.min_version) (
      bind-Reads _ (u16-Reads m.max_version h.max_version) (
        bind-Reads _ (u64-Reads m.requested_caps h.requested_caps) (
          bind-Reads _ (str-Reads m.client_kind h.client_kind) (
            bind-Reads _ (str-Reads m.client_version h.client_version)
              (return-Reads _ m (str-Reads m.kernel_release h.kernel_release) refl))))))

-- Cut the encoding of a `MountRequest`, with anything behind it, at any byte: the decoder refuses a cut
-- inside the encoding, and returns the request after any other.
pub decode_mount_request-encode :
    (m : MountRequest) (rest : List ℕ) (k : ℕ)
    → IsMountRequest m
    → decode_mount_request (take k (encode_mount_request m ++ rest))
      ≡ (if ltb k (length (encode_mount_request m)) then none else some m)
unfolding decode_mount_request encode_mount_request
decode_mount_request-encode m rest k h = run-Reads k rest (
    bind-Reads _ (u32-Reads m.mount_flags h.mount_flags) (
      bind-Reads _ (str-Reads m.client_id h.client_id) (
        bind-Reads _ (str-Reads m.hostname h.hostname)
          (return-Reads _ m (str-Reads m.auth_token h.auth_token) refl))))

-- Cut the encoding of a `MountResponse`, with anything behind it, at any byte: the decoder refuses a cut
-- inside the encoding, and returns the response after any other.
pub decode_mount_response-encode :
    (m : MountResponse) (rest : List ℕ) (k : ℕ)
    → IsMountResponse m
    → decode_mount_response (take k (encode_mount_response m ++ rest))
      ≡ (if ltb k (length (encode_mount_response m)) then none else some m)
unfolding decode_mount_response encode_mount_response
decode_mount_response-encode m rest k h = run-Reads k rest (
    bind-Reads _ (u64-Reads m.cluster_version h.cluster_version) (
      bind-Reads _ (u64-Reads m.namespace_generation h.namespace_generation) (
        bind-Reads _ (bool-Reads m.guardian_visible) (
          bind-Reads _ (object_id-Reads m.root_object_id h.root_object_id) (
            bind-Reads _ (attr-Reads m.root h.root) (
              bind-Reads _ (u32-Reads m.entry_ttl_ms h.entry_ttl_ms) (
                bind-Reads _ (u32-Reads m.attr_ttl_ms h.attr_ttl_ms) (
                  bind-Reads _ (u32-Reads m.dir_ttl_ms h.dir_ttl_ms)
                    (return-Reads _ m (u32-Reads m.route_ttl_ms h.route_ttl_ms) refl)))))))))
