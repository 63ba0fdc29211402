-- ===== src/SensorGateway/Ingest/Tally.antt =====
-- services/sensor-gateway/src/main.rs: what the counters add up to for one line.
use swarm_intelligence_netwo.Prelude.{
  ℕ, suc, ◌+◌, ◌≤◌, ◌<◌, String, ◌≡◌, refl, inl, inr, Bool, true, false, ◌||◌, Option, none, some,
  List, [], ◌∷◌, arith, ◌==◌, string_eq, nat_eq, pair_eq, Bool-cases, length, All,
}
use swarm_intelligence_netwo.SensorGateway.NatsPool.{NatsPool}
use swarm_intelligence_netwo.SensorGateway.Rules.{CompiledRule}
use swarm_intelligence_netwo.SensorGateway.Engine.{Line, DetectionEvent, Matcher, match_rules}
use swarm_intelligence_netwo.SensorGateway.Ingest.{
  Metrics, count_kind, count_severity, count_detections, classify,
}

-- A pool that has a connection, or none.
abbrev pub IsUsable : {C : Type 0} → Option (NatsPool C) → Type 0
IsUsable none = Unit
IsUsable (some p) = 0 < length p.connections

abbrev pub is_known : DetectionEvent → Bool
is_known d = d.kind == "signature" || d.kind == "anomaly"

abbrev pub AllKnown : List DetectionEvent → Type 0
AllKnown ds = All (λ d. is_known d ≡ true) ds

pub match_rules-AllKnown :
    {R : Type 0} (m : Matcher R) (line : Line) (rules : List (CompiledRule R))
    → AllKnown (match_rules m line rules)
unfolding match_rules
match_rules-AllKnown m line [] = tt
match_rules-AllKnown m line (cr ∷ rules) = elim (Bool-cases (m.is_match cr.regex line)) [
  | inl hit ↦ rw hit (refl, match_rules-AllKnown m line rules)
  | inr miss ↦ rw miss (match_rules-AllKnown m line rules)
]

abbrev pub by_kind : Metrics → ℕ
by_kind m = m.signature_total + m.anomaly_total

abbrev pub by_severity : Metrics → ℕ
by_severity m = m.critical + m.high + m.medium + m.low

-- `n` events are counted by kind, and by severity no more than them; nothing else changes.
pub record Counts (n : ℕ) (m m' : Metrics) : Type 0 where
  pub kinds : by_kind m' ≡ by_kind m + n
  pub severities : by_severity m' ≤ by_severity m + n
  pub events : m'.events_total ≡ m.events_total
  pub errors : m'.errors_total ≡ m.errors_total
  pub tp : m'.true_positives ≡ m.true_positives
  pub fp : m'.false_positives ≡ m.false_positives
  pub missed : m'.false_negatives ≡ m.false_negatives

count_one :
    (kind severity : String) (m : Metrics)
    → (kind == "signature" || kind == "anomaly") ≡ true
    → Counts 1 m (count_severity severity (count_kind kind m))
unfolding count_kind count_severity
count_one kind severity m known = ground (arith, known)

Counts-trans : (k : ℕ) (m m' m'' : Metrics) → Counts 1 m m' → Counts k m' m'' → Counts (suc k) m m''
Counts-trans k m m' m'' c d = ground arith

pub count_detections-Counts :
    (lower : String → String) (ds : List DetectionEvent) (m : Metrics)
    → AllKnown ds
    → Counts (length ds) m (count_detections lower ds m)
unfolding count_detections
count_detections-Counts lower [] m k = ground arith
count_detections-Counts lower (d ∷ ds) m (k, ks) =
    let m' = count_severity (lower d.severity) (count_kind d.kind m) in
    Counts-trans (length ds) m m' (count_detections lower ds m')
      (count_one d.kind (lower d.severity) m k) (count_detections-Counts lower ds m' ks)

abbrev pub one_if : Bool → ℕ
one_if true = 1
one_if false = 0

-- What one or more lines add: `n` lines, `positives` of them malicious.
pub record Adds (n positives : ℕ) (m m' : Metrics) : Type 0 where
  pub events : m'.events_total ≡ m.events_total + n
  pub errors : m'.errors_total ≡ m.errors_total
  pub truth :
      m'.true_positives + m'.false_negatives ≡ m.true_positives + m.false_negatives + positives
  pub detected :
      m'.true_positives + m'.false_positives + by_kind m
      ≤ m.true_positives + m.false_positives + by_kind m'
  pub graded : by_severity m' + by_kind m ≤ by_severity m + by_kind m'

abbrev pub finished : Metrics → Metrics
finished m = record m { events_total = m.events_total + 1 }

pub classify-Adds :
    (positive : Bool) (ds : List DetectionEvent) (m m' : Metrics)
    → Counts (length ds) m m'
    → Adds 1 (one_if positive) m (finished (classify positive ds m'))
unfolding classify
classify-Adds true [] m m' c = ground arith
classify-Adds false [] m m' c = ground arith
classify-Adds true (d ∷ ds) m m' c = ground arith
classify-Adds false (d ∷ ds) m m' c = ground arith

pub Adds-trans :
    (k p q : ℕ) (m m' m'' : Metrics) → Adds 1 p m m' → Adds k q m' m'' → Adds (suc k) (p + q) m m''
Adds-trans k p q m m' m'' a b = ground arith

pub Adds-none : (m : Metrics) → Adds 0 0 m m
Adds-none m = ground arith
