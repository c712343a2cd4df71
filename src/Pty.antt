-- ===== src/Pty.antt =====
-- kernel/src/core/pty.c: eight pseudo terminals, each with a byte queue from the master to the
-- slave (`m2s`) and one back (`s2m`). The file's globals are the record `Ptys`; a function that
-- changes them returns the new record beside its result. A null `buf` is `none`, and otherwise
-- `buf` is the list of its first `len` bytes.
mod Defs
pub mod Channel
pub mod Alloc
pub mod Transfer
pub mod Refusals
pub mod Spec
pub mod Refine
mod Tests
unfoldable pub use Defs.*
