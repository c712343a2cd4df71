-- ===== src/Vmm.antt =====
-- kernel/src/core/vmm.c: the page tables.
pub mod Defs
pub mod Walk
pub mod Tables
pub mod Link
pub mod Ensure
pub mod Entry
pub mod Store
pub mod Map
pub mod BootTables
mod Tests
unfoldable pub use Defs.*
