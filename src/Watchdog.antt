-- ===== src/Watchdog.antt =====
-- scripts/ninja_stall_watchdog.py: a compiler is run until it exits, stalls or meets its deadline.
pub mod Progress
pub mod Machine
pub mod Child
pub mod Run
pub mod Main
mod Tests
