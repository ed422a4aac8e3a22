-- ===== src/Templates.antt =====
-- zero/template_jobs.py: jobs from templates, their approval and their runs.
pub mod Catalog
pub mod Calendar
pub mod Schedule
pub mod Jobs
pub mod Cron
pub mod Runs
pub mod Due
pub mod Approval
pub mod Grants
mod Tests
