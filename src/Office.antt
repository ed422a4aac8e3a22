-- ===== src/Office.antt =====
-- zero/office/db.py: the repository of Office jobs.
pub mod Model
pub mod Transitions
pub mod Quota
pub mod Lease
pub mod Delivery
pub mod Ledger
pub mod Commands
pub mod Slots
pub mod Once
pub mod Lost
pub mod Coordinator
mod Tests
