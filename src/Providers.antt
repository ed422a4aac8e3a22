-- ===== src/Providers.antt =====
-- zero/providers: the calls to language models.
pub mod Limiter
pub mod Rate
pub mod Profile
pub mod Registry
pub mod Usage
mod Tests
