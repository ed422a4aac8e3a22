-- ===== src/Router.antt =====
-- zero/router.py: the pools of API keys, and the calls of the providers with their fallbacks.
pub mod Keys
pub mod Route
pub mod Complete
pub mod Choice
pub mod Requests
pub mod Health
pub mod Window
pub mod Minute
pub mod Day
pub mod Load
pub mod Best
mod Tests
