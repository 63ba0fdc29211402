-- ===== src/ThreatPipeline.antt =====
-- services/detection/src/pipeline.rs: the pipeline of the detection service. `F` stands for `f32` and `D`
-- for `f64`; `cast` is `as f32`. The latencies that the clock gives are arguments. `none` is an
-- error. The stages are held in a record, of which `stubs` are those of the source.
pub mod Tally
mod Tests
use swarm_intelligence_netwo.Prelude.{
  Distinct-snoc, all_recent, recent, length-recent, recent-recent, recent-append, make_room-push,
  push-make_room, ℕ, zero, suc, ◌+◌, ◌-◌, ◌*◌, ◌/◌, ◌%◌, ◌^◌, ◌≤◌, ◌<◌, min, max, String, ◌≡◌, refl,
  sym, ap, ◌∙◌, ◌≢◌, ◌↔◌, ◌⊎◌, inl, inr, Bool, true, false, not, ◌&&◌, ◌||◌, Option, none, some,
  List, [], ◌∷◌, ◌++◌, map, arith, ltb, leb, nat_beq, if◌then◌else◌, nat_beq_iff, Eq, ◌==◌,
  string_eq, nat_eq, pair_beq, pair_beq_iff, pair_eq, Bool-cases, Option-cases, some-injective,
  none-some, is_some, u64, u32, u8, u64_id, contains, insert, Distinct, Subset, equal_refl,
  contains-insert, contains-insert_self, length-insert, Distinct-insert, insert_of_contains,
  contains-append, contains-retain, Distinct-retain, length_mono-Subset, length-overlap, length,
  get_elem?, take, drop, replicate, retain, All, length-append, length-replicate, length-drop,
  length-take, take-append-drop, length-retain-le, All-append, length-map, Map, lookup, remove, put,
  lookup-remove, lookup-put,
}
use swarm_intelligence_netwo.Float.{Float, gt}
use swarm_intelligence_netwo.SwarmCore.Detections.{Detections, record_detection}

pub record ThreatEvent : Type 0 where
  pub id : String
  pub source_ip : String
  pub destination_ip : String
  pub timestamp : ℕ
  pub raw_data : List ℕ

pub record StageLatencies (D : Type 0) : Type 0 where
  pub ingestion_ms : D
  pub signature_match_ms : D
  pub anomaly_detection_ms : D
  pub ml_classification_ms : D
  pub total_ms : D

pub record DetectionResult (F D : Type 0) : Type 0 where
  pub event_id : String
  pub threat_detected : Bool
  pub threat_type : Option String
  pub confidence : F
  pub stage_latencies : StageLatencies D

pub record NormalizedEvent (F : Type 0) : Type 0 where
  pub id : String
  pub features : List F

pub record MlResult (F : Type 0) : Type 0 where
  pub threat_type : Option String
  pub confidence : F

-- The metrics that the pipeline adds to: two counters, the tally of detections, two histograms.
pub record Metrics (D : Type 0) : Type 0 where
  pub signature_total : ℕ
  pub anomaly_total : ℕ
  pub detections : Detections
  pub alert_latency_ms : List D
  pub e2e_latency_ms : List D

-- The stages that `DetectionPipeline` holds.
pub record Stages (F D : Type 0) : Type 0 where
  pub check : NormalizedEvent F → Option (Option String)
  pub analyze : NormalizedEvent F → Option D
  pub classify : NormalizedEvent F → Option (MlResult F)

module _ {F : Type 0} where
  unfoldable pub normalize_event : ThreatEvent → Option (NormalizedEvent F)
  normalize_event event = some (record { id = event.id; features = [] })

  -- `SignatureDatabase::check`
  unfoldable pub check : NormalizedEvent F → Option (Option String)
  check e = some none

  -- `AnomalyDetector::analyze`
  unfoldable pub analyze : {D : Type 0} ⦃g : Float D⦄ → NormalizedEvent F → Option D
  analyze ⦃g = g⦄ e = some (g.lit 0 1)

-- `MLClassifier::classify`
unfoldable pub classify : {F : Type 0} ⦃f : Float F⦄ → NormalizedEvent F → Option (MlResult F)
classify ⦃f = f⦄ e = some (record { threat_type = none; confidence = f.lit 0 1 })

abbrev pub or : Option String → Option String → Option String
or (some s) other = some s
or none other = other

module _ {D : Type 0} where
  abbrev pub count_match : Option String → Metrics D → Metrics D
  count_match none m = m
  count_match (some t) m = record m { signature_total = m.signature_total + 1 }

  abbrev pub count_anomaly : Bool → Metrics D → Metrics D
  count_anomaly high m = if high then record m { anomaly_total = m.anomaly_total + 1 } else m

  abbrev pub count_threat : Bool → Metrics D → Metrics D
  count_threat detected m =
      if detected then record m { detections = record_detection false m.detections } else m

  abbrev pub note_total : D → Metrics D → Metrics D
  note_total total m = record m {
    alert_latency_ms = m.alert_latency_ms ++ total ∷ [];
    e2e_latency_ms = m.e2e_latency_ms ++ total ∷ [];
  }

module _ {F D : Type 0} ⦃f : Float F⦄ ⦃g : Float D⦄ where
  unfoldable pub stubs : Stages F D
  stubs = record { check = check; analyze = analyze; classify = classify }

  -- What follows the four stages.
  unfoldable pub conclude :
      (D → F)
      → StageLatencies D
      → ThreatEvent
      → Option String
      → D
      → MlResult F
      → Metrics D
      → Metrics D × DetectionResult F D
  conclude cast latencies event sig_match anomaly_score ml_result m =
      let threat_detected =
        is_some sig_match || gt anomaly_score (g.lit 7 1) || gt ml_result.confidence (f.lit 8 1) in
      (
        count_threat threat_detected (note_total latencies.total_ms m),
        record {
          event_id = event.id;
          threat_detected = threat_detected;
          threat_type = or sig_match ml_result.threat_type;
          confidence = f.max_of ml_result.confidence (cast anomaly_score);
          stage_latencies = latencies;
        },
      )

  -- From the fourth stage on, given what it answers.
  abbrev pub from_classify :
      (D → F)
      → StageLatencies D
      → ThreatEvent
      → Option String
      → D
      → Option (MlResult F)
      → Metrics D
      → Metrics D × Option (DetectionResult F D)
  from_classify cast latencies event sig_match anomaly_score none m = (m, none)
  from_classify cast latencies event sig_match anomaly_score (some ml_result) m =
      let (m', r) = conclude cast latencies event sig_match anomaly_score ml_result m in
      (m', some r)

  -- From the third stage on, given what it and the fourth answer.
  abbrev pub from_analyze :
      (D → F)
      → StageLatencies D
      → ThreatEvent
      → Option String
      → Option D
      → Option (MlResult F)
      → Metrics D
      → Metrics D × Option (DetectionResult F D)
  from_analyze cast latencies event sig_match none classified m = (m, none)
  from_analyze cast latencies event sig_match (some anomaly_score) classified m =
      from_classify cast latencies event sig_match anomaly_score classified
        (count_anomaly (gt anomaly_score (g.lit 7 1)) m)

  -- From the second stage on, given what it and the later ones answer.
  abbrev pub from_check :
      (D → F)
      → StageLatencies D
      → ThreatEvent
      → Option (Option String)
      → Option D
      → Option (MlResult F)
      → Metrics D
      → Metrics D × Option (DetectionResult F D)
  from_check cast latencies event none analyzed classified m = (m, none)
  from_check cast latencies event (some sig_match) analyzed classified m =
      from_analyze cast latencies event sig_match analyzed classified (count_match sig_match m)

  -- What was counted before an error stays counted.
  unfoldable pub process :
      Stages F D
      → (D → F)
      → StageLatencies D
      → ThreatEvent
      → Metrics D
      → Metrics D × Option (DetectionResult F D)
  process stages cast latencies event m = elim (normalize_event {F = F} event) [
    | none ↦ (m, none)
    | some e ↦
        from_check cast latencies event (stages.check e) (stages.analyze e) (stages.classify e) m
  ]
