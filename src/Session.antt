-- ===== src/Session.antt =====
-- kernel/src/core/session.c: a table of sixteen sessions, the active one, and the terminal that
-- controls each.
mod Defs
pub mod Laws
pub mod Create
pub mod Active
mod Tests
unfoldable pub use Defs.*
