-- ===== src/Tests.antt =====
-- Runs of the services on a platform in memory.
mod Shop
mod Orders
mod Payments
mod Bookings
mod Chat
mod Community
mod Accounts
mod Mechanics
