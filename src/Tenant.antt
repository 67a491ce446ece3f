-- ===== src/Tenant.antt =====
-- The tenant of an authenticated request, and what its permissions allow.
pub mod Model
pub mod Resolver
pub mod Permissions
mod Tests
