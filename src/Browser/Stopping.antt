-- ===== src/Browser/Stopping.antt =====
-- A session of extensions/browser/chrome-extension/modules/session-core.js that stops.
use agent_tab_bridge.Base.{nat_eq, list_eq, option_eq}
