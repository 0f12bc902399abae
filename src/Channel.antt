-- ===== src/Channel.antt =====
-- The end-to-end session channel after its handshake: src/companion/channel/index.ts.
pub mod Defs
pub mod Wire
pub mod Replay
pub mod Handshake
pub mod Parties
pub mod Delivery
pub mod Agreement
mod Meeting
mod Tests
