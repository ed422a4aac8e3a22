-- ===== src/Tenancy.antt =====
-- zero/tenancy: who owns a row.
pub mod Ids
pub mod Roles
pub mod Registry
pub mod Quotas
pub mod Spending
pub mod Refunds
pub mod Settings
pub mod Moves
pub mod Lifecycle
mod Tests
