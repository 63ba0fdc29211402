-- ===== src/ThreatPipeline/Tally.antt =====
-- services/detection/src/pipeline.rs: what the pipeline counts and answers over any events.
use mathlib.Core.List.{append-nil, append_assoc}
use swarm_intelligence_netwo.Prelude.{
  ℕ, ◌+◌, ◌^◌, ◌<◌, String, ◌≡◌, refl, sym, ap, ◌∙◌, Bool, true, false, ◌&&◌, ◌||◌, Option, none,
  some, List, [], ◌∷◌, ◌++◌, arith, if◌then◌else◌, string_eq, nat_eq, pair_eq, is_some, u64_id,
  length,
}
use swarm_intelligence_netwo.Float.{Float, gt}
use swarm_intelligence_netwo.SwarmCore.Detections.{Detections, record_detection}
use swarm_intelligence_netwo.ThreatPipeline.{
  ThreatEvent, StageLatencies, DetectionResult, NormalizedEvent, MlResult, Metrics, Stages,
  normalize_event, conclude, from_check, process, count_match, count_anomaly,
}

module _ {F D : Type 0} ⦃f : Float F⦄ ⦃g : Float D⦄ where
  -- The events are processed one after the other.
  unfoldable pub process_all :
      Stages F D
      → (D → F)
      → List (StageLatencies D × ThreatEvent)
      → Metrics D
      → Metrics D × List (Option (DetectionResult F D))
  process_all stages cast [] m = (m, [])
  process_all stages cast ((latencies, event) ∷ events) m =
      let (m', r) = process stages cast latencies event m in
      let (m'', rs) = process_all stages cast events m' in (m'', r ∷ rs)

abbrev pub has_signature : Option (Option String) → Bool
has_signature (some (some t)) = true
has_signature _ = false

abbrev pub one : Bool → ℕ
one true = 1
one false = 0

abbrev pub is_high : {D : Type 0} ⦃g : Float D⦄ → Option D → Bool
is_high none = false
is_high ⦃g = g⦄ (some score) = gt score (g.lit 7 1)

abbrev pub is_sure : {F : Type 0} ⦃f : Float F⦄ → Option (MlResult F) → Bool
is_sure none = false
is_sure ⦃f = f⦄ (some r) = gt r.confidence (f.lit 8 1)

abbrev pub total_of : {D : Type 0} → StageLatencies D → Bool → List D
total_of latencies answered = if answered then latencies.total_ms ∷ [] else []

-- What the three stages answer for an event.
pub record Answers (F D : Type 0) : Type 0 where
  pub checked : Option (Option String)
  pub analyzed : Option D
  pub classified : Option (MlResult F)

module _ {F D : Type 0} ⦃f : Float F⦄ ⦃g : Float D⦄ where
  abbrev pub answers_of : Stages F D → ThreatEvent → Answers F D
  answers_of stages event =
      let e : NormalizedEvent F = record { id = event.id; features = [] } in
      record {
        checked = stages.check e;
        analyzed = stages.analyze e;
        classified = stages.classify e;
      }

  -- No stage is an error.
  abbrev pub is_answered : Answers F D → Bool
  is_answered a = is_some a.checked && is_some a.analyzed && is_some a.classified

  -- The signatures know the event.
  abbrev pub is_matched : Answers F D → Bool
  is_matched a = has_signature a.checked

  -- It is analyzed, the signatures not being an error, and its score is above 0.7.
  abbrev pub is_anomalous : Answers F D → Bool
  is_anomalous a = is_some a.checked && is_high a.analyzed

  -- It has a signature, a high score or a sure class.
  abbrev pub is_threat : Answers F D → Bool
  is_threat a = has_signature a.checked || is_high a.analyzed || is_sure a.classified

  -- It is answered with a threat.
  abbrev pub is_reported : Answers F D → Bool
  is_reported a = is_answered a && is_threat a

  -- The number of events of whose answers a test holds.
  abbrev pub count : Stages F D → (Answers F D → Bool) → List (StageLatencies D × ThreatEvent) → ℕ
  count stages test [] = 0
  count stages test ((latencies, event) ∷ events) =
      one (test (answers_of stages event)) + count stages test events

  -- The total times of the events that are answered, in order.
  abbrev pub totals : Stages F D → List (StageLatencies D × ThreatEvent) → List D
  totals stages [] = []
  totals stages ((latencies, event) ∷ events) =
      total_of latencies (is_answered (answers_of stages event)) ++ totals stages events

  -- An event is answered by an error exactly if a stage is one. Else the result has its id and its
  -- times, and reports a threat exactly if there is one.
  abbrev pub Told :
      StageLatencies D → ThreatEvent → Answers F D → Option (DetectionResult F D) → Type 0
  Told latencies event a none = is_answered a ≡ false
  Told latencies event a (some r) =
      (is_answered a ≡ true)
      × (r.event_id ≡ event.id)
      × (r.threat_detected ≡ is_threat a)
      × (r.stage_latencies ≡ latencies)

  abbrev pub AllTold :
      Stages F D
      → List (StageLatencies D × ThreatEvent)
      → List (Option (DetectionResult F D))
      → Type 0
  AllTold stages [] [] = Unit
  AllTold stages [] (r ∷ rs) = ⊥
  AllTold stages (e ∷ es) [] = ⊥
  AllTold stages ((latencies, event) ∷ events) (r ∷ rs) =
      Told latencies event (answers_of stages event) r × AllTold stages events rs

  -- What one event does to the metrics, and its answer.
  record Step (latencies : StageLatencies D) (event : ThreatEvent) (a : Answers F D) (m : Metrics D)
      (out : Metrics D × Option (DetectionResult F D)) : Type 0 where
    signatures : out.0.signature_total ≡ m.signature_total + one (is_matched a)
    anomalies : out.0.anomaly_total ≡ m.anomaly_total + one (is_anomalous a)
    detections :
        out.0.detections
        ≡ (if is_reported a then record_detection false m.detections else m.detections)
    alerts : out.0.alert_latency_ms ≡ m.alert_latency_ms ++ total_of latencies (is_answered a)
    ends : out.0.e2e_latency_ms ≡ m.e2e_latency_ms ++ total_of latencies (is_answered a)
    told : Told latencies event a out.1

  failed :
      (latencies : StageLatencies D) (event : ThreatEvent) (a : Answers F D) (m m' : Metrics D)
      → is_answered a ≡ false
      → m'.signature_total ≡ m.signature_total + one (is_matched a)
      → m'.anomaly_total ≡ m.anomaly_total + one (is_anomalous a)
      → m'.detections ≡ m.detections
      → m'.alert_latency_ms ≡ m.alert_latency_ms
      → m'.e2e_latency_ms ≡ m.e2e_latency_ms
      → Step latencies event a m (m', none)
  failed latencies event a m m' error s n d t t' = record {
    signatures = s;
    anomalies = n;
    detections = rw error d;
    alerts = rw error (t ∙ sym (append-nil m.alert_latency_ms));
    ends = rw error (t' ∙ sym (append-nil m.e2e_latency_ms));
    told = error;
  }

  from_check-Step :
      (cast : D → F) (latencies : StageLatencies D) (event : ThreatEvent)
      (checked : Option (Option String)) (analyzed : Option D) (classified : Option (MlResult F))
      (m : Metrics D)
      → Step latencies event
          (record { checked = checked; analyzed = analyzed; classified = classified })
          m
          (from_check cast latencies event checked analyzed classified m)
  unfolding conclude
  from_check-Step cast latencies event none analyzed classified m =
      failed latencies event
        (record { checked = none; analyzed = analyzed; classified = classified }) m m refl
        (omega arith) (omega arith) refl refl refl
  from_check-Step cast latencies event (some none) none classified m =
      failed latencies event
        (record { checked = some none; analyzed = none; classified = classified }) m m refl
        (omega arith) (omega arith) refl refl refl
  from_check-Step cast latencies event (some (some t)) none classified m =
      failed latencies event
        (record { checked = some (some t); analyzed = none; classified = classified }) m
        (count_match (some t) m) refl (omega arith) (omega arith) refl refl refl
  from_check-Step cast latencies event (some none) (some score) none m =
      failed latencies event
        (record { checked = some none; analyzed = some score; classified = none }) m
        (count_anomaly (gt score (g.lit 7 1)) m) refl (ground arith) (ground arith) (ground arith)
        (ground arith) (ground arith)
  from_check-Step cast latencies event (some (some t)) (some score) none m =
      failed latencies event
        (record { checked = some (some t); analyzed = some score; classified = none }) m
        (count_anomaly (gt score (g.lit 7 1)) (count_match (some t) m)) refl (ground arith)
        (ground arith) (ground arith) (ground arith) (ground arith)
  from_check-Step cast latencies event (some none) (some score) (some r) m = record {
    signatures = ground arith;
    anomalies = ground arith;
    detections = ground arith;
    alerts = ground arith;
    ends = ground arith;
    told = (refl, refl, refl, refl);
  }
  from_check-Step cast latencies event (some (some t)) (some score) (some r) m = record {
    signatures = ground arith;
    anomalies = ground arith;
    detections = ground arith;
    alerts = ground arith;
    ends = ground arith;
    told = (refl, refl, refl, refl);
  }

  -- What any events do to the metrics `m`, and their answers.
  pub record Tallied (stages : Stages F D) (events : List (StageLatencies D × ThreatEvent))
      (m : Metrics D) (out : Metrics D × List (Option (DetectionResult F D))) : Type 0 where
    pub signatures : out.0.signature_total ≡ m.signature_total + count stages is_matched events
    pub anomalies : out.0.anomaly_total ≡ m.anomaly_total + count stages is_anomalous events
    pub threats :
        out.0.detections.total_detections
        ≡ m.detections.total_detections + count stages is_reported events
    pub false_positives :
        out.0.detections.total_false_positives ≡ m.detections.total_false_positives
    pub alerts : out.0.alert_latency_ms ≡ m.alert_latency_ms ++ totals stages events
    pub ends : out.0.e2e_latency_ms ≡ m.e2e_latency_ms ++ totals stages events
    pub told : AllTold stages events out.1

  process-Step :
      (stages : Stages F D) (cast : D → F) (latencies : StageLatencies D) (event : ThreatEvent)
      (m : Metrics D)
      → Step latencies event (answers_of stages event) m (process stages cast latencies event m)
  unfolding process normalize_event
  process-Step stages cast latencies event m =
      let a = answers_of stages event in
      from_check-Step cast latencies event a.checked a.analyzed a.classified m

  -- Any stages, each of which answers or fails as it will, and any events, processed one after the
  -- other. The counters grow by the events with a signature and by those with a score above 0.7, also
  -- where a later stage fails. An event is answered by an error exactly if a stage fails. Else the
  -- result has its id and its times, and reports a threat exactly if it has a signature, a
  -- score above 0.7 or a confidence above 0.8; its total time is added to both histograms. The detections
  -- grow by the threats that are reported, as long as their counter has room, and the false positives
  -- stay.
  pub process_all-Tallied :
      (stages : Stages F D) (cast : D → F) (events : List (StageLatencies D × ThreatEvent))
      (m : Metrics D)
      → m.detections.total_detections + length events < 2 ^ 64
      → Tallied stages events m (process_all stages cast events m)
  unfolding process_all record_detection
  process_all-Tallied stages cast [] m room = record {
    signatures = omega arith;
    anomalies = omega arith;
    threats = omega arith;
    false_positives = refl;
    alerts = sym (append-nil m.alert_latency_ms);
    ends = sym (append-nil m.e2e_latency_ms);
    told = tt;
  }
  process_all-Tallied stages cast ((latencies, event) ∷ events) m room =
      let a = answers_of stages event in
      let m' = (process stages cast latencies event m).0 in
      let here = process-Step stages cast latencies event m in
      let fits = u64_id (m.detections.total_detections + 1) (omega (arith, room)) in
      let total : m'.detections.total_detections
          ≡ m.detections.total_detections + one (is_reported a) =
        ap (λ (d : Detections). d.total_detections) here.detections ∙ ground (arith, fits) in
      let same : m'.detections.total_false_positives ≡ m.detections.total_false_positives =
        ap (λ (d : Detections). d.total_false_positives) here.detections ∙ ground arith in
      let later = process_all-Tallied stages cast events m' (ground (arith, room, total)) in
      let time = total_of latencies (is_answered a) in
      record {
        signatures = omega (arith, here.signatures, later.signatures);
        anomalies = omega (arith, here.anomalies, later.anomalies);
        threats = omega (arith, total, later.threats);
        false_positives = later.false_positives ∙ same;
        alerts =
            later.alerts
            ∙ ap (λ (ts : List D). ts ++ totals stages events) here.alerts
            ∙ append_assoc m.alert_latency_ms time (totals stages events);
        ends =
            later.ends
            ∙ ap (λ (ts : List D). ts ++ totals stages events) here.ends
            ∙ append_assoc m.e2e_latency_ms time (totals stages events);
        told = (here.told, later.told);
      }
