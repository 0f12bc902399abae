-- ===== src/Relay.antt =====
-- The relay between CDP clients and the browser's extension:
-- extensions/browser/src/browser/extension-relay, with the extension's own policy of
-- extensions/browser/chrome-extension/modules/cdp-policy.js.
pub mod Policy
pub mod Protocol
pub mod State
pub mod Targets
pub mod Claims
pub mod Extension
pub mod Requests
pub mod Jobs
pub mod Clients
pub mod Steps
pub mod Safety
mod Tests
