-- ===== src/MlDetection/Stages.antt =====
-- libs/rust/core/src/ml_detection.rs: which stage an event ends in, and what is counted.
use swarm_intelligence_netwo.Prelude.{
  ℕ, suc, ◌+◌, ◌≡◌, Bool, true, false, not, ◌&&◌, some, List, [], ◌∷◌, ◌++◌, if◌then◌else◌,
  string_eq, nat_eq, pair_eq, is_some, length, lookup,
}
use swarm_intelligence_netwo.Text.{text_eq}
use swarm_intelligence_netwo.Float.{Float, gt}
use swarm_intelligence_netwo.MlDetection.{
  ThreatEvent, suspicious, malicious, DetectionResult, MlDetectionPipeline, DetectionMetrics,
  Timing, hash_of, count_signature, count_anomaly, is_nil, calculate_anomaly_score, ml_classify,
  detect,
}

pub data Stage : Type 0 where
  by_signature by_anomaly by_model : Stage

abbrev pub is_stage : Stage → Stage → Bool
is_stage by_signature by_signature = true
is_stage by_anomaly by_anomaly = true
is_stage by_model by_model = true
is_stage _ _ = false

abbrev pub noted : {D : Type 0} → Timing D → Stage → DetectionMetrics D → DetectionMetrics D
noted t by_signature m = count_signature t.signature_ms m
noted t by_anomaly m = count_anomaly t.anomaly_ms m
noted t by_model m = record m { e2e_latency_ms = m.e2e_latency_ms ++ t.end_to_end_ms ∷ [] }

module _ {F : Type 0} ⦃f : Float F⦄ where
  -- The stage that decides on an event: the first one that knows it.
  unfoldable pub stage_of : MlDetectionPipeline F → ThreatEvent F → Stage
  stage_of p e =
      if is_some (lookup (hash_of e) p.signature_cache)
      then by_signature
      else if not (is_nil e.features) && gt (calculate_anomaly_score e.features) p.anomaly_threshold
      then by_anomaly
      else by_model

  -- The number of events that end in a stage.
  abbrev pub count :
      {D : Type 0} → Stage → MlDetectionPipeline F → List (Timing D × ThreatEvent F) → ℕ
  count s p [] = 0
  count s p ((t, e) ∷ events) =
      let rest = count s p events in if is_stage s (stage_of p e) then suc rest else rest

module _ {F D : Type 0} ⦃f : Float F⦄ ⦃g : Float D⦄ where
  -- What each stage answers.
  abbrev pub answer : MlDetectionPipeline F → Timing D → ThreatEvent F → Stage → DetectionResult F D
  answer p t e by_signature = record {
    level = malicious;
    confidence = f.lit 1 0;
    attack_type = some "known_threat";
    latency_ms = t.signature_ms;
  }
  answer p t e by_anomaly = record {
    level = suspicious;
    confidence = calculate_anomaly_score e.features;
    attack_type = some "anomaly";
    latency_ms = t.anomaly_ms;
  }
  answer p t e by_model = ml_classify p t e

  unfoldable pub detect_all :
      MlDetectionPipeline F
      → List (Timing D × ThreatEvent F)
      → DetectionMetrics D
      → DetectionMetrics D × List (DetectionResult F D)
  detect_all p [] m = (m, [])
  detect_all p ((t, e) ∷ events) m =
      let (m', res) = detect p t e m in
      let (m'', later) = detect_all p events m' in (m'', res ∷ later)

  abbrev pub answers :
      MlDetectionPipeline F → List (Timing D × ThreatEvent F) → List (DetectionResult F D)
  answers p [] = []
  answers p ((t, e) ∷ events) = answer p t e (stage_of p e) ∷ answers p events

  -- What `events` add to the metrics `m`, in `m'`, and what they are answered.
  pub record Tallied (p : MlDetectionPipeline F) (events : List (Timing D × ThreatEvent F))
      (m : DetectionMetrics D) (out : DetectionMetrics D × List (DetectionResult F D))
      : Type 0 where
    pub answered : out.1 ≡ answers p events
    pub signatures : out.0.signature_total ≡ m.signature_total + count by_signature p events
    pub anomalies : out.0.anomaly_total ≡ m.anomaly_total + count by_anomaly p events
    pub alerts :
        length out.0.alert_latency_ms
        ≡ length m.alert_latency_ms + count by_signature p events + count by_anomaly p events
