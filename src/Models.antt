-- ===== src/Models.antt =====
-- The rows of the database: internal/models.
pub mod Sales
pub mod Accounts
pub mod Installation
pub mod Paystack
pub mod Community
pub mod Support
pub mod Tokens
