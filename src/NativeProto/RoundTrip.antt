-- ===== src/NativeProto/RoundTrip.antt =====
-- Decoding after encoding, message by message.
pub mod Session
pub mod Namespace
pub mod Files
pub mod Replies
pub mod Together
