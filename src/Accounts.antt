-- ===== src/Accounts.antt =====
-- Organizations, the users in them, their memberships, roles and teams.
pub mod Model
pub mod Roles
pub mod Memberships
pub mod Organizations
pub mod Users
pub mod Login
pub mod Teams
mod Tests
