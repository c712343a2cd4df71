-- ===== src/Keyboard.antt =====
-- kernel/src/core/keyboard.c: the driver that turns the scancodes of a keyboard into key events and
-- into the bytes that a terminal reads.
pub mod Keycode
pub mod Keymap
mod Defs
pub mod Queue
pub mod Utf8
pub mod Ranges
pub mod Event
pub mod Notes
pub mod Irq
pub mod Refine
pub mod Prefixes
pub mod Modifiers
mod Tests
unfoldable pub use Defs.*
