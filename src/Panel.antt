-- ===== src/Panel.antt =====
-- zero/panel_cache.py: what the clients of the panel share.
pub mod Snapshot
pub mod Flights
mod Tests
