-- ===== src/Sessions.antt =====
-- Task sessions: src/companion/task-sessions.ts, with the route of a session from
-- src/companion/endpoint-contracts.ts and the named keys of src/companion/stable-session-key.ts.
pub mod Types
pub mod Entry
pub mod Manager
pub mod Operations
pub mod Life
pub mod Steps
pub mod Invariant
pub mod Edges
pub mod Evolution
mod Tests
