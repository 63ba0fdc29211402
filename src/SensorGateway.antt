-- ===== src/SensorGateway.antt =====
-- services/sensor-gateway/src: the pool of NATS connections, the rules and their reload, the anomaly
-- detector, the detection engine, and the ingestion of lines.
pub mod NatsPool
pub mod Rules
pub mod Anomaly
pub mod Engine
pub mod Ingest
pub mod Reload
mod Tests
