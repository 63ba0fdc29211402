-- ===== src/MlDetection.antt =====
-- libs/rust/core/src/ml_detection.rs: the detection pipeline of the core library. `F` stands for `f32`
-- and `D` for `f64`. The latencies that the clock gives are arguments. The metrics are the two counters
-- and what the two histograms recorded.
pub mod Stages
mod Tests
use swarm_intelligence_netwo.Prelude.{
  Distinct-snoc, all_recent, recent, length-recent, recent-recent, recent-append, make_room-push,
  push-make_room, ℕ, zero, suc, ◌+◌, ◌-◌, ◌*◌, ◌/◌, ◌%◌, ◌^◌, ◌≤◌, ◌<◌, min, max, String, ◌≡◌, refl,
  sym, ap, ◌∙◌, ◌≢◌, ◌↔◌, ◌⊎◌, inl, inr, Bool, true, false, not, ◌&&◌, ◌||◌, Option, none, some,
  List, [], ◌∷◌, ◌++◌, map, arith, ltb, leb, nat_beq, if◌then◌else◌, nat_beq_iff, Eq, ◌==◌,
  string_eq, nat_eq, pair_beq, pair_beq_iff, pair_eq, Bool-cases, Option-cases, some-injective,
  none-some, is_some, u64, u32, u8, u64_id, contains, insert, Distinct, Subset, equal_refl,
  contains-insert, contains-insert_self, length-insert, Distinct-insert, insert_of_contains,
  contains-append, contains-retain, Distinct-retain, length_mono-Subset, length-overlap, length,
  get_elem?, take, drop, replicate, retain, All, length-append, length-replicate, length-drop,
  length-take, take-append-drop, length-retain-le, All-append, length-map, Map, lookup, remove, put,
  lookup-remove, lookup-put,
}
use swarm_intelligence_netwo.Text.{Text, text_eq, colon}
use swarm_intelligence_netwo.Float.{Float, gt, sum, mean}

pub record ThreatEvent (F : Type 0) : Type 0 where
  pub timestamp : ℕ
  pub source_ip : Text
  pub dest_ip : Text
  pub protocol : Text
  pub payload_size : ℕ
  pub features : List F

pub data ThreatLevel : Type 0 where
  benign suspicious malicious critical : ThreatLevel

pub record DetectionResult (F D : Type 0) : Type 0 where
  pub level : ThreatLevel
  pub confidence : F
  pub attack_type : Option String
  pub latency_ms : D

pub record MlDetectionPipeline (F : Type 0) : Type 0 where
  pub signature_cache : Map Text Bool
  pub anomaly_threshold : F
  pub ml_threshold : F

pub record DetectionMetrics (D : Type 0) : Type 0 where
  pub signature_total : ℕ
  pub anomaly_total : ℕ
  pub alert_latency_ms : List D
  pub e2e_latency_ms : List D

-- The latencies of one event: of each stage and from end to end.
pub record Timing (D : Type 0) : Type 0 where
  pub signature_ms : D
  pub anomaly_ms : D
  pub ml_ms : D
  pub end_to_end_ms : D

abbrev pub hash_of : {F : Type 0} → ThreatEvent F → Text
hash_of e = e.source_ip ++ colon ∷ e.dest_ip ++ colon ∷ e.protocol

abbrev pub count_signature : {D : Type 0} → D → DetectionMetrics D → DetectionMetrics D
count_signature latency m = record m {
  signature_total = m.signature_total + 1;
  alert_latency_ms = m.alert_latency_ms ++ latency ∷ [];
  e2e_latency_ms = m.e2e_latency_ms ++ latency ∷ [];
}

abbrev pub count_anomaly : {D : Type 0} → D → DetectionMetrics D → DetectionMetrics D
count_anomaly latency m = record m {
  anomaly_total = m.anomaly_total + 1;
  alert_latency_ms = m.alert_latency_ms ++ latency ∷ [];
}

abbrev pub is_nil : {A : Type 0} → List A → Bool
is_nil [] = true
is_nil (x ∷ xs) = false

-- `if let Some(res) = ... { return Ok(res); }`, and what follows it.
abbrev pub or_else : {M R : Type 0} → M × Option R → (M → M × R) → M × R
or_else (m, some res) k = (m, res)
or_else (m, none) k = k m

module _ {F : Type 0} ⦃f : Float F⦄ where
  unfoldable pub new : MlDetectionPipeline F
  new = record { signature_cache = []; anomaly_threshold = f.lit 7 1; ml_threshold = f.lit 8 1 }

  unfoldable pub calculate_anomaly_score : List F → F
  calculate_anomaly_score features =
      let m = mean features in
      let variance = mean (map (λ x. f.mul (f.sub x m) (f.sub x m)) features) in
      let std_dev = f.max_of (f.sqrt variance) (f.lit 1 6) in
      f.div (mean (map (λ x. f.abs (f.div (f.sub x m) std_dev)) features)) (f.lit 3 0)

  unfoldable pub neural_inference : List F → F × String
  neural_inference features =
      let score = mean features in
      (
        score,
        if gt score (f.lit 8 1)
            then "ddos"
            else if gt score (f.lit 6 1)
            then "port_scan"
            else "unknown",
      )

  abbrev pub level_of : F → F → ThreatLevel
  level_of ml_threshold confidence =
      if gt confidence ml_threshold
      then malicious
      else if gt confidence (f.lit 5 1)
      then suspicious
      else benign

module _ {F D : Type 0} ⦃f : Float F⦄ where
  unfoldable pub signature_match :
      MlDetectionPipeline F
      → Timing D
      → ThreatEvent F
      → DetectionMetrics D
      → DetectionMetrics D × Option (DetectionResult F D)
  signature_match p t e m = elim (lookup (hash_of e) p.signature_cache) [
    | none ↦ (m, none)
    | some _ ↦ (
      count_signature t.signature_ms m,
      some (record {
        level = malicious;
        confidence = f.lit 1 0;
        attack_type = some "known_threat";
        latency_ms = t.signature_ms;
      }),
    )
  ]

  unfoldable pub anomaly_detect :
      MlDetectionPipeline F
      → Timing D
      → ThreatEvent F
      → DetectionMetrics D
      → DetectionMetrics D × Option (DetectionResult F D)
  anomaly_detect p t e m =
      let anomaly_score = calculate_anomaly_score e.features in
      if is_nil e.features
      then (m, none)
      else if gt anomaly_score p.anomaly_threshold
      then (
        count_anomaly t.anomaly_ms m,
        some (record {
          level = suspicious;
          confidence = anomaly_score;
          attack_type = some "anomaly";
          latency_ms = t.anomaly_ms;
        }),
      )
      else (m, none)

module _ {F D : Type 0} ⦃f : Float F⦄ ⦃g : Float D⦄ where
  unfoldable pub ml_classify :
      MlDetectionPipeline F → Timing D → ThreatEvent F → DetectionResult F D
  ml_classify p t e =
      let (confidence, attack_type) = neural_inference e.features in
      if is_nil e.features
      then record {
        level = benign;
        confidence = f.lit 0 0;
        attack_type = none;
        latency_ms = g.lit 0 0;
      }
      else record {
        level = level_of p.ml_threshold confidence;
        confidence = confidence;
        attack_type = some attack_type;
        latency_ms = t.ml_ms;
      }

  -- The last stage, and the latency from end to end.
  abbrev pub classified :
      MlDetectionPipeline F
      → Timing D
      → ThreatEvent F
      → DetectionMetrics D
      → DetectionMetrics D × DetectionResult F D
  classified p t e m =
      (record m { e2e_latency_ms = m.e2e_latency_ms ++ t.end_to_end_ms ∷ [] }, ml_classify p t e)

  unfoldable pub detect :
      MlDetectionPipeline F
      → Timing D
      → ThreatEvent F
      → DetectionMetrics D
      → DetectionMetrics D × DetectionResult F D
  detect p t e m =
      or_else (signature_match p t e m) (λ m'. or_else (anomaly_detect p t e m') (classified p t e))
