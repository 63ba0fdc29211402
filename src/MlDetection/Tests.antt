-- ===== src/MlDetection/Tests.antt =====
-- Runs of the pipeline, with hundredths for `f32` and `f64`.
use swarm_intelligence_netwo.Prelude.{
  ℕ, ◌≡◌, refl, List, [], ◌∷◌, string_eq, nat_eq, pair_eq, lookup,
}
use swarm_intelligence_netwo.Float.Numbers.{numbers}
use swarm_intelligence_netwo.MlDetection.{
  ThreatEvent, DetectionMetrics, Timing, new, suspicious, detect, signature_match, anomaly_detect,
  ml_classify, neural_inference, calculate_anomaly_score,
}

abbrev event : List ℕ → ThreatEvent ℕ
event features = record {
  timestamp = 0;
  source_ip = b'1' ∷ [];
  dest_ip = b'2' ∷ [];
  protocol = b'T' ∷ [];
  payload_size = 128;
  features = features;
}

abbrev timing : Timing ℕ
timing = record { signature_ms = 1; anomaly_ms = 2; ml_ms = 3; end_to_end_ms = 4 }

abbrev idle : DetectionMetrics ℕ
idle = record { signature_total = 0; anomaly_total = 0; alert_latency_ms = []; e2e_latency_ms = [] }

abbrev events : List (Timing ℕ × ThreatEvent ℕ)
events = (timing, event (50 ∷ 60 ∷ 70 ∷ 80 ∷ [])) ∷ (timing, event []) ∷ []

-- The test `pipeline_runs`.
pipeline_runs : (detect new timing (event (50 ∷ 60 ∷ 70 ∷ 80 ∷ [])) idle).1.level ≡ suspicious
unfolding detect new signature_match anomaly_detect ml_classify neural_inference
    calculate_anomaly_score lookup
pipeline_runs = refl

-- An anomaly records no latency from end to end.
anomaly_untimed :
    (detect
      (record new { anomaly_threshold = 0 })
      timing
      (event (0 ∷ 1000 ∷ []))
      idle).0.e2e_latency_ms
    ≡ []
unfolding detect new signature_match anomaly_detect ml_classify neural_inference
    calculate_anomaly_score lookup
anomaly_untimed = refl

-- It is an anomaly.
anomaly_counted :
    (detect
      (record new { anomaly_threshold = 0 })
      timing
      (event (0 ∷ 1000 ∷ []))
      idle).0.anomaly_total
    ≡ 1
unfolding detect new signature_match anomaly_detect ml_classify neural_inference
    calculate_anomaly_score lookup
anomaly_counted = refl
