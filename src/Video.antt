-- ===== src/Video.antt =====
-- kernel/src/core/video.c: the framebuffer that the loader describes.
pub mod Defs
pub mod Identity
pub mod Probe
mod Tests
unfoldable pub use Defs.*
