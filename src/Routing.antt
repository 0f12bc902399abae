-- ===== src/Routing.antt =====
-- Opaque routes through the hub: src/hub/routing.ts.
pub mod Envelope
mod Tests
