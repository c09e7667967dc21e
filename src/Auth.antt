-- ===== src/Auth.antt =====
-- The auth service (services/auth): sessions of refresh tokens, accounts and referral rewards.
pub mod Sessions
pub mod Referrals
pub mod Accounts
mod Tests
