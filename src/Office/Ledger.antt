-- ===== src/Office/Ledger.antt =====
-- The quota ledger against the jobs: what each owner's row must hold.
mod Jobs
mod Settle
pub mod Finish
pub mod Create
pub mod Limit
pub use Settle.{Agrees-jobs}
pub use Finish.{found_by_own_id}
pub use Create.{Unique-append}
pub use Jobs.{
  Unique, Unique-update, Agrees, Balanced, is_committed, one_job, size_of, contribution, tally,
  usage_of,
}
