-- ===== src/Sessions.antt =====
-- zero/sessions.py: the registry of Telegram sessions and the attended login.
pub mod Registry
pub mod Login
pub mod Sound
mod Methods
pub mod Active
pub mod Adapter
mod Tests
