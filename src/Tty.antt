-- ===== src/Tty.antt =====
-- kernel/src/core/tty.c: the line discipline between the keyboard's bytes and the readers. In
-- canonical mode bytes gather in a line buffer and are delivered by line; they go to the queue of the
-- attached terminal (pty.c) if there is one, and else to the file's own read queue. The echo on the
-- console is kept as the list of console calls made.
mod Defs
pub mod Sink
pub mod Flush
pub mod Editor
pub mod Canonical
pub mod Keys
pub mod Ending
pub mod Edit
pub mod Refine
pub mod Lines
pub mod Poll
pub mod Target
pub mod SpecialKeys
mod Tests
unfoldable pub use Defs.*
