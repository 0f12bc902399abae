-- ===== src/Sessions/Steps.antt =====
-- The calls and callbacks that change a session manager, as one step function, and what holds of
-- each stored session between two steps.
mod Entries
mod Calls
pub use Entries.*
unfoldable pub use Calls.*
