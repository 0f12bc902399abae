-- ===== src/Endpoint.antt =====
-- Records of endpoints: src/companion/endpoint-contracts.ts.
pub mod Provenance
pub mod Keys
pub mod Reading
pub mod Guard
pub mod Accepted
mod Tests
