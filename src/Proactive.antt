-- ===== src/Proactive.antt =====
-- zero/proactive_*.py: follow-ups that the program starts by itself.
pub mod Outbox
pub mod Attempts
pub mod Policy
pub mod Limits
pub mod Selection
pub mod Scheduler
pub mod Retries
pub mod Fairness
pub mod Budget
pub mod Claims
mod Tests
