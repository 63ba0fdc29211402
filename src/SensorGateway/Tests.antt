-- ===== src/SensorGateway/Tests.antt =====
-- Runs of the sensor gateway: clients are numbers, and a signature is right if it is the key. Regular
-- expressions are patterns that a line starts with, and hundredths stand for `f64`.
use swarm_intelligence_netwo.Prelude.{
  ℕ, ◌*◌, ◌<◌, String, ◌≡◌, refl, true, Option, none, some, List, [], ◌∷◌, ◌++◌, arith,
  if◌then◌else◌, ◌==◌, string_eq, nat_eq, pair_eq, length, get_elem?,
}
use swarm_intelligence_netwo.Float.Numbers.{numbers}
use swarm_intelligence_netwo.SensorGateway.Anomaly.{AnomalyConfig, Clock, second}
use swarm_intelligence_netwo.SensorGateway.Anomaly.{new as new_detector}
use swarm_intelligence_netwo.SensorGateway.Anomaly.Windows.{within}
use swarm_intelligence_netwo.SensorGateway.Anomaly.Forget.{history}
use swarm_intelligence_netwo.SensorGateway.Anomaly.{exceeds}
use swarm_intelligence_netwo.SensorGateway.Engine.{
  Line, Matcher, match_rules, scan, new, anomaly_event, byte_len,
}
use swarm_intelligence_netwo.SensorGateway.Engine.Scan.{Turns, sizes, scan_all, scan-history}
use swarm_intelligence_netwo.SensorGateway.Ingest.{
  Metrics, Host, Gateway, Turn, malicious, starts, ingest_file_loop,
}
use swarm_intelligence_netwo.SensorGateway.Ingest.Loop.{
  Progress, busy, harmful, ingest_file_loop-Progress,
}
use swarm_intelligence_netwo.SensorGateway.Reload.{Settings, FileEvent, watch_rules}
use swarm_intelligence_netwo.SensorGateway.Reload.Vetted.{Vetted, readings, watch_rules-Vetted}
use swarm_intelligence_netwo.SensorGateway.NatsPool.{NatsPool, draw, after_next, draw-in_turn}
use swarm_intelligence_netwo.SensorGateway.Rules.{
  RuleSet, DetectionRule, CompiledRule, FileBundle, Crates, ok, load_rules, load_bundle,
  compile_all, signature_passes, parse_key, parse_sig,
}

abbrev pool : NatsPool ℕ
pool = record { connections = 10 ∷ 11 ∷ 12 ∷ []; next_index = 2 }

draw-in_turn_example :
    (cs : List ℕ) × (draw 5 pool ≡ some cs)
    × (length cs ≡ 5)
    × ((i : ℕ) → i < 5 → get_elem? cs i ≡ after_next i pool)
draw-in_turn_example = draw-in_turn 5 pool (omega arith)

abbrev rule : DetectionRule
rule = record { id = "r1"; pattern = "a+"; severity = none; action = none }

abbrev bundle : FileBundle
bundle = record { rules = rule ∷ []; signature = some "k"; public_key = some "k" }

abbrev plain : FileBundle
plain = record { rules = rule ∷ []; signature = none; public_key = none }

abbrev read_bundle : String → Option FileBundle
read_bundle content = if content == "signed" then some bundle else some plain

abbrev crates : Crates String String String String
crates = record {
  read_to_string = some;
  from_str = read_bundle;
  compile = some;
  compile_error = λ p. p;
  signed_digest = λ content sig. content;
  hex_decode = λ s. none;
  base64_decode = some;
  key_from_bytes = some;
  signature_from_bytes = some;
  verifies = λ key digest sig. key == sig;
}

abbrev compiled : List (CompiledRule String)
compiled = record { raw = rule; regex = "a+" } ∷ []

loaded : load_rules crates "signed" true none ≡ ok compiled
unfolding load_rules load_bundle compile_all signature_passes parse_key parse_sig
loaded = refl

abbrev matcher : Matcher String
matcher = record { is_match = λ r line. starts (b'M' ∷ b'A' ∷ []) line; sha256_hex = λ line. "h" }

abbrev at_second : ℕ → Clock
at_second n = record { now = n * second; at_prune = n * second; at_stats = n * second }

abbrev turns : Turns
turns = (at_second 1, b'a' ∷ b'b' ∷ []) ∷ (at_second 20, malicious) ∷ []

abbrev rule_set : RuleSet String
rule_set = record { rules = compiled; version_hash = "h"; loaded_ts = 0 }

-- One event in the last five minutes is enough.
abbrev eager : AnomalyConfig ℕ
eager = record { threshold_ratio = 100; min_events = 1 }

scan-history_example :
    let e = scan_all matcher turns (new rule_set (new_detector eager 0) true true true) in
    let all = history (sizes turns ++ (at_second 1000, byte_len malicious) ∷ []) in
    (scan matcher (at_second 1000) malicious e).1
    ≡ (if true then match_rules matcher malicious rule_set.rules else [])
      ++ (if exceeds eager (within 60 (1000 * second) all) (within (60 * 5) (1000 * second) all)
          then anomaly_event malicious (matcher.sha256_hex malicious) ∷ []
          else [])
scan-history_example = scan-history matcher rule_set eager 0 true turns (at_second 1000) malicious (
  omega arith,
  omega arith,
  omega arith,
  (omega arith, omega arith, omega arith, (omega arith, omega arith, omega arith, tt)),
)

abbrev host : Host String
host = record {
  matcher = matcher;
  hash32 = λ bytes. 7;
  hostname = none;
  encode = λ e. some e.payload;
  to_vec = λ d. some d.payload_preview;
  to_lowercase = λ s. s;
  has_log = true;
}

abbrev idle : Metrics
idle = record {
  events_total = 0;
  errors_total = 0;
  signature_total = 0;
  anomaly_total = 0;
  true_positives = 0;
  false_positives = 0;
  false_negatives = 0;
  critical = 0;
  high = 0;
  medium = 0;
  low = 0;
}

abbrev gateway : Gateway ℕ String ℕ
gateway = record {
  engine = new rule_set (new_detector eager 0) true true true;
  pool = some pool;
  metrics = idle;
  sent = [];
  log = [];
}

abbrev turn : ℕ → Turn
turn n = record { millis = some (n * 1000); clock = at_second n }

abbrev lines : List (Turn × Line)
lines = (turn 1, malicious) ∷ (turn 2, b' ' ∷ []) ∷ (turn 3, b'a' ∷ b'b' ∷ []) ∷ []

ingest_file_loop-Progress_example :
    Progress (busy lines) (harmful lines) gateway (ingest_file_loop host lines gateway)
ingest_file_loop-Progress_example =
    ingest_file_loop-Progress host lines gateway (refl, (refl, (refl, tt))) (λ e. refl)
      (omega arith)

abbrev settings : Settings
settings = record { rules_path = "rules.yaml"; verify_rules = true; external_pk = none }

abbrev holds : Option String → FileEvent
holds content = record { is_change = true; content = content; now = 1 }

-- The file is there at the start, then gone, then signed.
abbrev changes : List FileEvent
changes = holds none ∷ holds (some "signed") ∷ []

watch_rules-Vetted_example :
    Vetted crates none
      (readings changes (holds (some "plain") ∷ holds none ∷ []))
      (watch_rules crates settings (holds none) (holds (some "plain")) changes).rules
watch_rules-Vetted_example =
    watch_rules-Vetted crates settings (holds none) (holds (some "plain")) changes refl
