-- ===== src/NativeProto.antt =====
-- The wire protocol between the kernel client and the gateway: internal/nativeproto/protocol.go.
pub mod Encoder
pub mod Decoder
pub mod Reads
pub mod Attr
pub mod Session
pub mod Namespace
pub mod Files
pub mod Replies
pub mod Consumes
pub mod Frame
pub mod RoundTrip
