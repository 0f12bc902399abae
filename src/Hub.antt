-- ===== src/Hub.antt =====
-- The hub's route table: src/hub/service.ts.
pub mod Routes
pub mod Isolation
pub mod Table
pub mod Binding
pub mod Refusal
mod Tests
