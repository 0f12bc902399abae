-- ===== src/Browser.antt =====
-- What the browser's extension decides about sessions and tabs:
-- extensions/browser/chrome-extension/modules/session-core.js.
pub mod Ownership
pub mod Released
pub mod Rules
pub mod Owners
pub mod Stopping
pub mod Authority
pub mod Matching
mod Tests
