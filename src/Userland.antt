-- ===== src/Userland.antt =====
-- userland: the programs walud, authd and storaged, each a function from its arguments and its
-- surroundings to what it does, in order, and its exit code.
pub mod Effects
pub mod Storaged
pub mod Authd
pub mod Walud
pub use Effects.*
