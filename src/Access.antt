-- ===== src/Access.antt =====
-- The access of a session, how it is normalised and how it is raised:
-- src/companion/session-access.ts.
pub mod Order
pub mod Defs
pub mod Domains
pub mod Normal
pub mod Upgrade
mod Tests
