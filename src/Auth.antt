-- ===== src/Auth.antt =====
-- Accounts and tokens (app/modules/auth), and the profile of a user (app/modules/users).
pub mod Status
pub mod Passwords
pub mod PasswordRoundTrip
pub mod Tokens
pub mod TokenLaws
pub mod Genuine
pub mod Rows
pub mod Service
pub mod Profile
pub mod Account
pub mod Kept
pub mod Operations
pub mod History
pub mod Unique
pub mod SingleUse
pub mod Spent
pub mod Once
pub mod RateLimit
pub mod RateLaws
mod TestCodec
mod Tests
