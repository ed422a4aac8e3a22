-- ===== src/WebSearch.antt =====
-- zero/web_search: looking things up on the web.
pub mod Cache
mod Entries
pub mod Bounds
pub mod Recent
