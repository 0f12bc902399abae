-- ===== src/Relay/Safety.antt =====
-- What the commands of the relay's bridge name and carry, whatever the order of events:
-- extension-relay/relay-bridge.ts.
pub mod Invariant
mod Sessions
mod Claims
mod Extension
mod Requests
mod Jobs
pub mod Run
pub mod Closing
pub mod Withdrawn
