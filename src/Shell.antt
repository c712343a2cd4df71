-- ===== src/Shell.antt =====
-- kernel/src/core/shell.c: the command line. Defs has the kernel's state as the shell sees it, History
-- the commands kept by rust/src/lib.rs, Reports the commands that print, Selftest the one that tests,
-- Loop the handling of bytes.
pub mod History
pub mod Defs
pub mod Reports
pub mod Selftest
pub mod Loop
pub mod Line
pub mod Redraw
pub mod Quiet
pub mod Poll
pub mod Stale
mod Tests
