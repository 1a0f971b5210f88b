-- ===== src/Auth.antt =====
-- Sign-in, its protection, and accounts: backend/app/modules/auth/.
pub mod Model
pub mod Passwords
pub mod Failures
pub mod Login
pub mod Accounts
mod Tests
