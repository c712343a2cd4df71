-- ===== src/Pmm.antt =====
-- kernel/src/core/pmm.c: the allocator of physical frames, a bitmap with a count of the frames in use.
mod Defs
pub mod Cells
pub mod Bitmap
pub mod Frames
pub mod Region
pub mod Boot
mod Tests
unfoldable pub use Defs.*
