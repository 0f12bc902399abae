-- ===== src/Framing.antt =====
-- Length-prefixed frames over a byte stream: src/hub/framing.ts and
-- src/companion/native-framing.ts. Both decoders run the loop of `Decoder`, with their own length
-- format and their own test of a frame's body.
pub mod Decoder
pub mod Stream
pub mod Bounds
pub mod Hub
pub mod Native
mod Tests
