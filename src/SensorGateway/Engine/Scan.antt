-- ===== src/SensorGateway/Engine/Scan.antt =====
-- services/sensor-gateway/src/detection/engine.rs: what a scan finds, after any other scans.
use swarm_intelligence_netwo.Prelude.{
  ℕ, ◌*◌, ◌≡◌, refl, ap, ◌∙◌, Bool, true, List, [], ◌∷◌, ◌++◌, arith, if◌then◌else◌, string_eq,
  nat_eq, pair_eq,
}
use swarm_intelligence_netwo.Float.{Float}
use swarm_intelligence_netwo.SensorGateway.Rules.{RuleSet}
use swarm_intelligence_netwo.SensorGateway.Anomaly.{
  AnomalyConfig, AnomalyDetector, Clock, record_size, exceeds,
}
use swarm_intelligence_netwo.SensorGateway.Anomaly.{new as new_detector}
use swarm_intelligence_netwo.SensorGateway.Anomaly.Windows.{within}
use swarm_intelligence_netwo.SensorGateway.Anomaly.Forget.{Onward, history}
use swarm_intelligence_netwo.SensorGateway.Anomaly.Verdict.{record_sizes, verdict-history}
use swarm_intelligence_netwo.SensorGateway.Engine.{
  Line, DetectionEngine, Matcher, byte_len, anomaly_event, match_rules, detect_anomaly, scan, new,
  is_true,
}

-- Lines with the clock of their turn, and what the detector is given of them.
abbrev pub Turns : Type 0
Turns = List (Clock × Line)

abbrev pub sizes : Turns → List (Clock × ℕ)
sizes [] = []
sizes ((c, line) ∷ turns) = (c, byte_len line) ∷ sizes turns

module _ {R F : Type 0} ⦃f : Float F⦄ (m : Matcher R) where
  unfoldable pub scan_all : Turns → DetectionEngine R F → DetectionEngine R F
  scan_all [] e = e
  scan_all ((c, line) ∷ turns) e = scan_all turns (scan m c line e).0

  -- The switches and the rules that `e'` has of `e`, and its detector.
  record Follows (e : DetectionEngine R F) (d : AnomalyDetector F) (e' : DetectionEngine R F)
      : Type 0 where
    same_rules : e'.rules ≡ e.rules
    same_enabled : e'.enabled ≡ e.enabled
    same_anomaly_enabled : e'.anomaly_enabled ≡ e.anomaly_enabled
    same_signature_enabled : e'.signature_enabled ≡ e.signature_enabled
    detector : e'.anomaly ≡ d

  scan-Follows :
      (c : Clock) (line : Line) (e : DetectionEngine R F)
      → e.enabled ≡ true
      → e.anomaly_enabled ≡ true
      → Follows e (record_size c (byte_len line) e.anomaly).0 (scan m c line e).0
  unfolding scan detect_anomaly
  scan-Follows c line e on anomaly_on = ground (arith, on, anomaly_on)

  scan_all-Follows :
      (turns : Turns) (e : DetectionEngine R F)
      → e.enabled ≡ true
      → e.anomaly_enabled ≡ true
      → Follows e (record_sizes (sizes turns) e.anomaly) (scan_all turns e)
  unfolding scan_all record_sizes
  scan_all-Follows [] e on anomaly_on = record {
    same_rules = refl;
    same_enabled = refl;
    same_anomaly_enabled = refl;
    same_signature_enabled = refl;
    detector = refl;
  }
  scan_all-Follows ((c, line) ∷ turns) e on anomaly_on =
      let e' = (scan m c line e).0 in
      let s = scan-Follows c line e on anomaly_on in
      let r =
        scan_all-Follows turns e' (s.same_enabled ∙ on) (s.same_anomaly_enabled ∙ anomaly_on) in
      record {
        same_rules = r.same_rules ∙ s.same_rules;
        same_enabled = r.same_enabled ∙ s.same_enabled;
        same_anomaly_enabled = r.same_anomaly_enabled ∙ s.same_anomaly_enabled;
        same_signature_enabled = r.same_signature_enabled ∙ s.same_signature_enabled;
        detector =
            r.detector ∙ ap (λ (d : AnomalyDetector F). record_sizes (sizes turns) d) s.detector;
      }

  scan-events :
      (c : Clock) (line : Line) (e : DetectionEngine R F)
      → e.enabled ≡ true
      → e.anomaly_enabled ≡ true
      → (scan m c line e).1
        ≡ (if e.signature_enabled then match_rules m line e.rules.rules else [])
          ++ (if is_true (record_size c (byte_len line) e.anomaly).1
              then anomaly_event line (m.sha256_hex line) ∷ []
              else [])
  unfolding scan detect_anomaly
  scan-events c line e on anomaly_on = rw (on, scan, anomaly_on, detect_anomaly) refl

  -- A new engine, its two switches for detection on, scans any lines by a clock that never goes back.
  -- What it finds in the next line is the rules that match, in their order, if signatures are
  -- enabled, and one anomaly after them just if the lines of the last minute, of all that were
  -- scanned, exceed the threshold against those of the last five minutes.
  pub scan-history :
      (rules : RuleSet R) (cfg : AnomalyConfig F) (start : ℕ) (signatures : Bool) (turns : Turns)
      (c : Clock) (line : Line)
      → Onward start (sizes turns ++ (c, byte_len line) ∷ [])
      → let e = scan_all turns (new rules (new_detector cfg start) true true signatures) in
        let all = history (sizes turns ++ (c, byte_len line) ∷ []) in
        (scan m c line e).1
        ≡ (if signatures then match_rules m line rules.rules else [])
          ++ (if exceeds cfg (within 60 c.at_stats all) (within (60 * 5) c.at_stats all)
              then anomaly_event line (m.sha256_hex line) ∷ []
              else [])
  unfolding new
  scan-history rules cfg start signatures turns c line o =
      let e0 = new rules (new_detector cfg start) true true signatures in
      let e = scan_all turns e0 in
      let r = scan_all-Follows turns e0 refl refl in
      scan-events c line e r.same_enabled r.same_anomaly_enabled
      ∙ rw
          (
            r.same_signature_enabled,
            r.same_rules,
            r.detector,
            verdict-history cfg start (sizes turns) c (byte_len line) o,
          )
          refl
