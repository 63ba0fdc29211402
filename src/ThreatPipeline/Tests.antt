-- ===== src/ThreatPipeline/Tests.antt =====
-- Runs of the pipeline, with hundredths for `f32` and `f64`.
use swarm_intelligence_netwo.Prelude.{
  ℕ, String, ◌≡◌, refl, false, none, some, List, [], ◌∷◌, arith, if◌then◌else◌, ◌==◌, string_eq,
  nat_eq, pair_eq,
}
use swarm_intelligence_netwo.Float.Numbers.{numbers}
use swarm_intelligence_netwo.SwarmCore.Detections.{started}
use swarm_intelligence_netwo.ThreatPipeline.{
  ThreatEvent, StageLatencies, Metrics, Stages, stubs, normalize_event, check, analyze, classify,
  conclude, process,
}
use swarm_intelligence_netwo.ThreatPipeline.Tally.{process_all, Tallied, process_all-Tallied}

abbrev latencies : StageLatencies ℕ
latencies = record {
  ingestion_ms = 1;
  signature_match_ms = 2;
  anomaly_detection_ms = 3;
  ml_classification_ms = 4;
  total_ms = 10;
}

abbrev event : String → ThreatEvent
event id = record {
  id = id;
  source_ip = "1.1.1.1";
  destination_ip = "2.2.2.2";
  timestamp = 0;
  raw_data = b'x' ∷ [];
}

abbrev idle : Metrics ℕ
idle = record {
  signature_total = 0;
  anomaly_total = 0;
  detections = started;
  alert_latency_ms = [];
  e2e_latency_ms = [];
}

-- The signatures know "known", and fail on "torn"; "odd" has a high score.
abbrev answering : Stages ℕ ℕ
answering = record {
  check =
      λ e. if e.id == "torn" then none else some (if e.id == "known" then some "worm" else none);
  analyze = λ e. some (if e.id == "odd" then 90 else 10);
  classify =
      λ e. if e.id == "odd" then none else some (record { threat_type = none; confidence = 20 });
}

abbrev events : List (StageLatencies ℕ × ThreatEvent)
events =
    (latencies, event "known")
    ∷ (latencies, event "torn")
    ∷ (latencies, event "odd")
    ∷ (latencies, event "quiet")
    ∷ []

-- The stubs report no threat.
stubs_quiet :
    (process (stubs {F = ℕ} {D = ℕ}) (λ x. x) latencies (event "known") idle).1
    ≡ some (record {
      event_id = "known";
      threat_detected = false;
      threat_type = none;
      confidence = 0;
      stage_latencies = latencies;
    })
unfolding process stubs normalize_event check analyze classify conclude
stubs_quiet = refl

-- A high score is counted although the classifier then fails.
odd_counted : (process answering (λ x. x) latencies (event "odd") idle).0.anomaly_total ≡ 1
unfolding process normalize_event conclude
odd_counted = refl

process_all-Tallied_example :
    Tallied answering events idle (process_all answering (λ x. x) events idle)
process_all-Tallied_example = process_all-Tallied answering (λ x. x) events idle (omega arith)
