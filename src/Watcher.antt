-- ===== src/Watcher.antt =====
-- scripts/chromium_stable_watcher.py
mod Tests
pub mod Gh
pub mod Rest
pub mod Select
pub mod Lane
pub mod RunState
pub mod Manifest
pub mod Health
pub mod Feed
pub mod Main
