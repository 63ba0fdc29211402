-- ===== src/SensorGateway/Engine.antt =====
-- services/sensor-gateway/src/detection/engine.rs: the detection engine. A line is the list of its
-- characters, as code points; `regex` and `sha2` are parameters. `F` stands for `f64`.
pub mod Scan
use swarm_intelligence_netwo.Prelude.{
  Distinct-snoc, all_recent, recent, length-recent, recent-recent, recent-append, make_room-push,
  push-make_room, ℕ, zero, suc, ◌+◌, ◌-◌, ◌*◌, ◌/◌, ◌%◌, ◌^◌, ◌≤◌, ◌<◌, min, max, String, ◌≡◌, refl,
  sym, ap, ◌∙◌, ◌≢◌, ◌↔◌, ◌⊎◌, inl, inr, Bool, true, false, not, ◌&&◌, ◌||◌, Option, none, some,
  List, [], ◌∷◌, ◌++◌, map, arith, ltb, leb, nat_beq, if◌then◌else◌, nat_beq_iff, Eq, ◌==◌,
  string_eq, nat_eq, pair_beq, pair_beq_iff, pair_eq, Bool-cases, Option-cases, is_some, u64, u32,
  u8, u64_id, contains, insert, Distinct, Subset, equal_refl, contains-insert, contains-insert_self,
  length-insert, Distinct-insert, insert_of_contains, contains-append, contains-retain,
  Distinct-retain, length_mono-Subset, length-overlap, length, get_elem?, take, drop, replicate,
  retain, All, length-append, length-drop, length-take, take-append-drop, length-retain-le,
  All-append, length-map, Map, lookup, remove, put, lookup-remove, lookup-put,
}
use swarm_intelligence_netwo.Float.{Float}
use swarm_intelligence_netwo.SensorGateway.Rules.{DetectionRule, CompiledRule, RuleSet}
use swarm_intelligence_netwo.SensorGateway.Anomaly.{AnomalyDetector, Clock, record_size}

abbrev pub Line : Type 0
Line = List ℕ

pub record DetectionEvent : Type 0 where
  pub rule_id : Option String
  pub kind : String
  pub severity : String
  pub payload_preview : Line
  pub payload_hash : String

pub record DetectionEngine (R F : Type 0) : Type 0 where
  pub rules : RuleSet R
  pub anomaly : AnomalyDetector F
  pub enabled : Bool
  pub anomaly_enabled : Bool
  pub signature_enabled : Bool
  pub last_events : List DetectionEvent

-- What the engine takes from its libraries.
pub record Matcher (R : Type 0) : Type 0 where
  pub is_match : R → Line → Bool
  pub sha256_hex : Line → String

-- A character in UTF-8, `str::as_bytes` and `str::len`.
abbrev pub utf8 : ℕ → List ℕ
utf8 c =
    if ltb c 128
    then c ∷ []
    else if ltb c 2048
    then (192 + c / 64) ∷ (128 + c % 64) ∷ []
    else if ltb c 65536
    then (224 + c / 4096) ∷ (128 + c / 64 % 64) ∷ (128 + c % 64) ∷ []
    else (240 + c / 262144) ∷ (128 + c / 4096 % 64) ∷ (128 + c / 64 % 64) ∷ (128 + c % 64) ∷ []

abbrev pub as_bytes : Line → List ℕ
as_bytes [] = []
as_bytes (c ∷ cs) = utf8 c ++ as_bytes cs

abbrev pub byte_len : Line → ℕ
byte_len line = length (as_bytes line)

abbrev pub preview : Line → Line
preview line = take 120 line

abbrev pub or_info : Option String → String
or_info none = "info"
or_info (some s) = s

abbrev pub anomaly_event : Line → String → DetectionEvent
anomaly_event line hash = record {
  rule_id = none;
  kind = "anomaly";
  severity = "medium";
  payload_preview = preview line;
  payload_hash = hash;
}

abbrev pub signature_event : DetectionRule → Line → String → DetectionEvent
signature_event rule line hash = record {
  rule_id = some rule.id;
  kind = "signature";
  severity = or_info rule.severity;
  payload_preview = preview line;
  payload_hash = hash;
}

-- The last events change where there are new ones.
abbrev pub newest : List DetectionEvent → List DetectionEvent → List DetectionEvent
newest old [] = old
newest old (e ∷ es) = e ∷ es

abbrev pub is_true : Option Bool → Bool
is_true none = false
is_true (some b) = b

module _ {R F : Type 0} where
  unfoldable pub new : RuleSet R → AnomalyDetector F → Bool → Bool → Bool → DetectionEngine R F
  new rules anomaly enabled anomaly_enabled signature_enabled = record {
    rules = rules;
    anomaly = anomaly;
    enabled = enabled;
    anomaly_enabled = anomaly_enabled;
    signature_enabled = signature_enabled;
    last_events = [];
  }

-- The loop over the rules.
unfoldable pub match_rules :
    {R : Type 0} → Matcher R → Line → List (CompiledRule R) → List DetectionEvent
match_rules m line [] = []
match_rules m line (cr ∷ rules) =
    let rest = match_rules m line rules in
    if m.is_match cr.regex line
    then signature_event cr.raw line (m.sha256_hex line) ∷ rest
    else rest

module _ {R F : Type 0} ⦃f : Float F⦄ (m : Matcher R) where
  -- The detector records the line where it is enabled, and the event that it may give.
  unfoldable pub detect_anomaly :
      Clock → Line → DetectionEngine R F → DetectionEngine R F × List DetectionEvent
  detect_anomaly c line e =
      let (d, verdict) = record_size c (byte_len line) e.anomaly in
      let found = if is_true verdict then anomaly_event line (m.sha256_hex line) ∷ [] else [] in
      if e.anomaly_enabled then (record e { anomaly = d }, found) else (e, [])

  unfoldable pub scan :
      Clock → Line → DetectionEngine R F → DetectionEngine R F × List DetectionEvent
  scan c line e =
      let matched = if e.signature_enabled then match_rules m line e.rules.rules else [] in
      let (e', found) = detect_anomaly c line e in
      let out = matched ++ found in
      if e.enabled then (record e' { last_events = newest e.last_events out }, out) else (e, [])
