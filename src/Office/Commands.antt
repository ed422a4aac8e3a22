-- ===== src/Office/Commands.antt =====
-- The operations of `OfficeRepository` that write, as the commands of one machine. Every command is
-- one transaction: one that raises leaves the database as it was.
mod Steps
mod Sound
mod Recovery
mod Ops
pub mod Terminal
pub mod Accounts
pub mod Conservation
unfoldable pub use Steps.*
