-- ===== src/Userland/Walud.antt =====
-- userland/walud/walud.c: Trim has `trim`, Unit the unit file, Start the child process, Defs the
-- commands.
pub mod Trim
pub mod Unit
pub mod Trimmed
pub mod Lines
pub mod Render
pub mod Bounds
pub mod Launch
mod Tests
pub mod Start
pub mod Defs
