-- ===== src/Userland/Authd.antt =====
-- userland/authd/authd.c: Policy has the password policy, Shadow the look into the shadow file, Defs
-- the commands.
pub mod Policy
pub mod Shadow
pub mod Defs
pub mod Strength
pub mod Accounts
pub mod Unset
mod Tests
