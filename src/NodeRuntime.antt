-- ===== src/NodeRuntime.antt =====
-- services/node-runtime/src/modules: the four modules of a node.
pub mod Sensor
pub mod Brain
pub mod Action
pub mod Communication
mod Tests
