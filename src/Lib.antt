-- ===== src/Lib.antt =====
-- The swarm intelligence network: the Rust libraries and services whose behaviour is their own, as
-- functions on explicit state, with the theorems that make them correct.
--
-- Parts of the program, and the files here that model them:
--
--   libs/rust/core/src/consensus.rs        Pbft: one node's PBFT state machine. `handle_message` and
--                                          the four handlers are functions from the node's state to
--                                          its next state and its answer; Pbft/Trace follows a run,
--                                          Pbft/Agreement compares two nodes, Pbft/Progress takes a
--                                          proposal through its phases.
--   libs/rust/core/src/resilience.rs       Resilience/Retry: `retry_async`; Resilience/Breaker: the
--                                          circuit breaker, each call the step that admits it and the
--                                          step that reports its end, so that calls interleave.
--   libs/rust/resilience/src/lib.rs        SwarmResilience: the retry loop and the breaker that the
--                                          gateways use.
--   services/consensus-core/src            ConsensusCore: the gRPC service that counts votes, elects
--                                          leaders and keeps votes in a database; its handlers are
--                                          sequences of atomic steps. Text and Text/Decimal hold the
--                                          text functions by which it writes and reads its keys.
--   libs/rust/core/src/gossip.rs           Gossip: duplicate suppression, hops, fanout, statistics.
--   services/swarm-gossip/src/main.rs      SwarmGossip: the Bloom filter of the gossip service, bit for
--                                          bit, its peers and the choice of receivers; in Router the
--                                          loop over the inbox, the listener and the hello messages,
--                                          and in Router/Network several services on one bus.
--   libs/rust/core/src/lifecycle.rs        Lifecycle: the bootstrap phases of a node.
--   services/node-runtime/src/modules      NodeRuntime: sensor, brain, action and communication.
--   services/identity-ca/src/main.rs       IdentityCa: issuing, revoking and verifying certificates;
--                                          IdentityCa/Pqc holds the placeholders of its module pqc.
--   services/inference-gateway/src/main.rs InferenceGateway: models, inference, its cache, batches.
--   services/sensor-gateway/src            SensorGateway: the connection pool (nats_pool.rs), the
--                                          loading of signed rules (detection/rules.rs), Anomaly
--                                          (detection/anomaly.rs), Engine (detection/engine.rs), and of
--                                          main.rs the handling of lines in Ingest and the reload of
--                                          rules in Reload. A line goes from Ingest to Engine, which
--                                          asks the rules and Anomaly; what it finds goes out through
--                                          the pool.
--   libs/rust/core/src/federated_learning.rs  FederatedLearning: gradients, rounds and the mean.
--   libs/rust/core/src/autoscaling.rs      AutoScaling: the history, the decision and the cooldown.
--   libs/rust/core/src/reputation.rs       Reputation: scores, their decay and their bounds.
--   libs/rust/core/src/ml_detection.rs     MlDetection: the three stages of the core pipeline.
--   services/detection/src/pipeline.rs     ThreatPipeline: the four stages of the detection service.
--   libs/rust/core/src/lib.rs              SwarmCore: Config is the cached configuration, with
--                                          config_signature.rs, Health the flags of the health server,
--                                          Detections the ratio of false positives, which
--                                          ThreatPipeline adds to.
--
-- Prelude holds what these share: Boolean tests, equality as an interface, lists, sets, maps and the
-- last elements of a list. Float is the interface for f32 and f64, which are two instances of it, and
-- Float/Numbers an instance for tests. The services use the core library for logs, metrics and the
-- health endpoint, and the detection service also for its tally of detections; SwarmResilience/Retry
-- compares the two retry loops of the repository.
--
-- Conventions. A function keeps the name of the Rust function; a struct is a record and an enum a data
-- type. The state that a lock guards is an argument and a result. What the clock, the id generator,
-- the environment and the random source give is an argument. Libraries are interfaces: the tree of
-- sled, the sampling of rand, JSON values, the crates that `load_rules` calls, f32 and f64. An `Instant`
-- less a duration is written as a sum on the other side of the comparison. A panic and an error are
-- values. Unsigned arithmetic wraps around where the source's can; usize has 64 bits. A `HashSet` and a
-- `HashMap` are lists without repetition whose order nothing shows.
--
-- Bounds and fuel: loops are structural recursion. `Resilience.Retry.retry_from` runs on fuel, and its
-- theorem gives the fuel that every run ends in; `Text.Decimal.digits` prints with fuel 20, and every
-- u64 is below 10 ^ 20; `SwarmGossip.next_power_of_two` doubles 64 times, which reaches every usize.
--
-- Not modelled: the entry points, metrics and tracing; in the core library the QUIC transport and the
-- placeholders for post-quantum cryptography, privacy, evolution and the model registry; the placeholder
-- for ONNX; generated bindings; the start of the sensor gateway, the watchers of files, the coordinator,
-- which only starts types of the core library; and the code in Go and Python.
pub mod Prelude
pub mod Float
pub mod Text
pub mod Pbft
pub mod Resilience
pub mod SwarmResilience
pub mod ConsensusCore
pub mod Gossip
pub mod NodeRuntime
pub mod IdentityCa
pub mod InferenceGateway
pub mod SensorGateway
pub mod Lifecycle
pub mod SwarmGossip
pub mod FederatedLearning
pub mod AutoScaling
pub mod MlDetection
pub mod ThreatPipeline
pub mod SwarmCore
pub mod Reputation
