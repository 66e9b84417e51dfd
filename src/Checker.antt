-- ===== src/Checker.antt =====
-- rust_driver/src/checker.rs: which packets of a message have arrived, and what the driver answers.
pub mod Window
pub mod Contexts
pub mod Handler
