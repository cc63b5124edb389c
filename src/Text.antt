-- ===== src/Text.antt =====
-- Python's `str`, as the scripts use it: characters by class, decimal digits, `int`, `split`.
pub mod Digits
pub mod Search
pub mod Strip
pub mod Version
pub mod Pattern
pub mod Lines
pub mod Title
pub use Digits.*
pub mod Paths
