-- ===== src/Quota.antt =====
-- Usage quotas of an organization: the configuration that applies at an instant, the reservation of
-- usage against it, and what the platform and the scheduled jobs do to both.
pub mod Model
pub mod Resolver
pub mod Tables
pub mod Reserve
pub mod Commit
pub mod Consume
pub mod Inventory
mod Tests
pub mod Platform
pub mod Snapshots
