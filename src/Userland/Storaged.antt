-- ===== src/Userland/Storaged.antt =====
-- userland/storaged/storaged.c: Mounts has the look into the mount table, Defs the commands.
pub mod Mounts
pub mod Defs
pub mod Commands
pub mod Safety
pub mod Options
mod Table
mod Tests
pub mod Logs
pub mod Audit
pub use Defs.*
pub use Commands.*
