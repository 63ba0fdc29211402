-- ===== src/Resilience.antt =====
-- libs/rust/core/src/resilience.rs (`Breaker`, `Retry`), and what its breaker and that of
-- libs/rust/resilience promise alike (`Streak`).
pub mod Streak
pub mod Breaker
pub mod Retry
mod Tests
