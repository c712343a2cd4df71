-- ===== src/Startup.antt =====
-- kernel/src/core/kernel.c: the part of `kernel_main` that brings up the input path and the shell.
mod Defs
pub mod Prompt
mod Tests
unfoldable pub use Defs.*
