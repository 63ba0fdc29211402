-- ===== src/SwarmCore.antt =====
-- libs/rust/core/src/lib.rs: the shared state of a service. The detections and their false positives, the
-- flags of the health server, and the cached configuration.
pub mod Detections
pub mod Health
pub mod Config
mod Tests
