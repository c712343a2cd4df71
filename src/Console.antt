-- ===== src/Console.antt =====
-- kernel/src/core/console.c: the screen, the parser of escape sequences and the decoder of UTF-8.
pub mod Screen
pub mod Ansi
mod Defs
pub mod Cursor
pub mod Bounds
pub mod Bytes
pub mod Position
pub mod Numbers
mod Tests
unfoldable pub use Defs.*
