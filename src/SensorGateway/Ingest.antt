-- ===== src/SensorGateway/Ingest.antt =====
-- services/sensor-gateway/src/main.rs: the ingestion of lines. What the clock, the host's name, the
-- libraries for protobuf, JSON and hashing and `to_lowercase` give are parameters. Left out are the
-- histograms and gauges, the log lines and whether NATS accepts what it is handed, which the code only
-- logs. The semaphore of the pool is not held between lines.
pub mod Tally
pub mod Run
pub mod Loop
pub mod Synthetic
use swarm_intelligence_netwo.Prelude.{
  Distinct-snoc, all_recent, recent, length-recent, recent-recent, recent-append, make_room-push,
  push-make_room, ℕ, zero, suc, ◌+◌, ◌-◌, ◌*◌, ◌/◌, ◌%◌, ◌^◌, ◌≤◌, ◌<◌, min, max, String, ◌≡◌, refl,
  sym, ap, ◌∙◌, ◌≢◌, ◌↔◌, ◌⊎◌, inl, inr, Bool, true, false, not, ◌&&◌, ◌||◌, Option, none, some,
  List, [], ◌∷◌, ◌++◌, map, arith, ltb, leb, nat_beq, if◌then◌else◌, nat_beq_iff, Eq, ◌==◌,
  string_eq, nat_eq, pair_beq, pair_beq_iff, pair_eq, Bool-cases, Option-cases, is_some, u64, u32,
  u8, u64_id, contains, insert, Distinct, Subset, equal_refl, contains-insert, contains-insert_self,
  length-insert, Distinct-insert, insert_of_contains, contains-append, contains-retain,
  Distinct-retain, length_mono-Subset, length-overlap, length, get_elem?, take, drop, replicate,
  retain, All, length-append, length-drop, length-take, take-append-drop, length-retain-le,
  All-append, length-map, Map, lookup, remove, put, lookup-remove, lookup-put,
}
use swarm_intelligence_netwo.Float.{Float}
use swarm_intelligence_netwo.Text.Decimal.{print_u64}
use swarm_intelligence_netwo.SensorGateway.NatsPool.{NatsPool, publish}
use swarm_intelligence_netwo.SensorGateway.Rules.{and_then}
use swarm_intelligence_netwo.SensorGateway.Anomaly.{Clock}
use swarm_intelligence_netwo.SensorGateway.Engine.{
  Line, DetectionEvent, DetectionEngine, Matcher, scan, as_bytes,
}

pub record Metrics : Type 0 where
  pub events_total : ℕ
  pub errors_total : ℕ
  pub signature_total : ℕ
  pub anomaly_total : ℕ
  pub true_positives : ℕ
  pub false_positives : ℕ
  pub false_negatives : ℕ
  pub critical : ℕ
  pub high : ℕ
  pub medium : ℕ
  pub low : ℕ

pub record RawEvent : Type 0 where
  pub id : List ℕ
  pub observed_ts : ℕ
  pub source_type : String
  pub origin : String
  pub payload : List ℕ
  pub content_type : String

pub record Host (R : Type 0) : Type 0 where
  pub matcher : Matcher R
  pub hash32 : List ℕ → ℕ
  pub hostname : Option String
  pub encode : RawEvent → Option (List ℕ)
  pub to_vec : DetectionEvent → Option (List ℕ)
  pub to_lowercase : String → String
  -- DETECTION_LOG_PATH is set and the file can be opened.
  pub has_log : Bool

pub record Gateway (C R F : Type 0) : Type 0 where
  pub engine : DetectionEngine R F
  pub pool : Option (NatsPool C)
  pub metrics : Metrics
  pub sent : List (C × String × List ℕ)
  pub log : List (List ℕ)

-- `str::contains`
abbrev pub starts : Line → Line → Bool
starts [] s = true
starts (x ∷ xs) [] = false
starts (x ∷ xs) (y ∷ ys) = nat_beq x y && starts xs ys

abbrev pub has_infix : Line → Line → Bool
has_infix p [] = starts p []
has_infix p (c ∷ cs) = starts p (c ∷ cs) || has_infix p cs

abbrev pub malicious : Line
malicious = b'M' ∷ b'A' ∷ b'L' ∷ b'I' ∷ b'C' ∷ b'I' ∷ b'O' ∷ b'U' ∷ b'S' ∷ []

-- `char::is_whitespace`
abbrev pub is_whitespace : ℕ → Bool
is_whitespace c =
    (leb 9 c && leb c 13)
    || c == 32
    || c == 133
    || c == 160
    || c == 5760
    || (leb 8192 c && leb c 8202)
    || c == 8232
    || c == 8233
    || c == 8239
    || c == 8287
    || c == 12288

-- `line.trim().is_empty()`
unfoldable pub is_blank : Line → Bool
is_blank [] = true
is_blank (c ∷ cs) = is_whitespace c && is_blank cs

-- The counter of the event's kind, then the one of its severity.
unfoldable pub count_kind : String → Metrics → Metrics
count_kind kind m =
    if kind == "signature"
    then record m { signature_total = m.signature_total + 1 }
    else if kind == "anomaly"
    then record m { anomaly_total = m.anomaly_total + 1 }
    else m

unfoldable pub count_severity : String → Metrics → Metrics
count_severity severity m =
    if severity == "critical"
    then record m { critical = m.critical + 1 }
    else if severity == "high"
    then record m { high = m.high + 1 }
    else if severity == "medium"
    then record m { medium = m.medium + 1 }
    else if severity == "low" || severity == "info"
    then record m { low = m.low + 1 }
    else m

unfoldable pub count_detections : (String → String) → List DetectionEvent → Metrics → Metrics
count_detections lower [] m = m
count_detections lower (d ∷ ds) m =
    count_detections lower ds (count_severity (lower d.severity) (count_kind d.kind m))

-- True and false positives, and missed detections.
unfoldable pub classify : Bool → List DetectionEvent → Metrics → Metrics
classify positive [] m =
    if positive then record m { false_negatives = m.false_negatives + 1 } else m
classify positive (d ∷ ds) m =
    if positive
    then record m { true_positives = m.true_positives + 1 }
    else record m { false_positives = m.false_positives + 1 }

-- One line's turn: the milliseconds since 1970, where the clock gives them, and the engine's clock.
pub record Turn : Type 0 where
  pub millis : Option ℕ
  pub clock : Clock

abbrev pub raw_event : {R : Type 0} → Host R → ℕ → Line → RawEvent
raw_event h ts line = record {
  id = print_u64 ts ++ b'-' ∷ print_u64 (h.hash32 (as_bytes line));
  observed_ts = ts;
  source_type = "file";
  origin = elim h.hostname [ none ↦ "unknown" | some name ↦ name ];
  payload = as_bytes line;
  content_type = "text/plain";
}

module _ {C R F : Type 0} ⦃f : Float F⦄ where
  abbrev pub handed_over :
      Gateway C R F → Option (NatsPool C × (C × String × List ℕ)) → Option (Gateway C R F)
  handed_over g none = none
  handed_over g (some (p, message)) =
      some (record g { pool = some p; sent = g.sent ++ message ∷ [] })

  abbrev pub send_via :
      String → List ℕ → Gateway C R F → Option (NatsPool C) → Option (Gateway C R F)
  send_via subject payload g none = some g
  send_via subject payload g (some p) = handed_over g (publish subject payload p)

  -- Without a pool nothing is published.
  unfoldable pub send : String → List ℕ → Gateway C R F → Option (Gateway C R F)
  send subject payload g = send_via subject payload g g.pool

  abbrev pub alert_json : Host R → Gateway C R F → Option (List ℕ) → Option (Gateway C R F)
  alert_json h g none = some g
  alert_json h g (some json) =
      and_then (send "threat.v1.alert.detected" json g)
        (λ g'. some (if h.has_log then record g' { log = g'.log ++ json ∷ [] } else g'))

  abbrev pub alert_via :
      Host R → DetectionEvent → Gateway C R F → Option (NatsPool C) → Option (Gateway C R F)
  alert_via h d g none = some g
  alert_via h d g (some p) = alert_json h g (h.to_vec d)

  -- An alert is published, and then appended to the log; neither happens without a pool.
  unfoldable pub alert : Host R → DetectionEvent → Gateway C R F → Option (Gateway C R F)
  alert h d g = alert_via h d g g.pool

  unfoldable pub alert_all : Host R → List DetectionEvent → Gateway C R F → Option (Gateway C R F)
  alert_all h [] g = some g
  alert_all h (d ∷ ds) g = and_then (alert h d g) (λ g'. alert_all h ds g')

  -- What follows the publication of the raw event.
  unfoldable pub detect : Host R → Clock → Line → Gateway C R F → Option (Gateway C R F)
  detect h c line g =
      let (engine, detections) = scan h.matcher c line g.engine in
      let counted = count_detections h.to_lowercase detections g.metrics in
      let metrics = classify (has_infix malicious line) detections counted in
      and_then (alert_all h detections (record g { engine = engine; metrics = metrics })) (λ g'.
        some (record g' {
          metrics = record g'.metrics { events_total = g'.metrics.events_total + 1 };
        }))

  -- `none` waits for good; `false` is an error.
  unfoldable pub process_line : Host R → Turn → Line → Gateway C R F → Option (Gateway C R F × Bool)
  process_line h t line g = elim t.millis [
    | none ↦ some (g, false)
    | some ts ↦ elim (h.encode (raw_event h (u64 ts) line)) [
      | none ↦ some (g, false)
      | some bytes ↦
          and_then (send "ingest.v1.raw" bytes g)
            (λ g'. and_then (detect h t.clock line g') (λ g''. some (g'', true)))
    ]
  ]

  abbrev pub note_error : Gateway C R F × Bool → Gateway C R F
  note_error (g, true) = g
  note_error (g, false) = record g {
    metrics = record g.metrics { errors_total = g.metrics.errors_total + 1 };
  }

  -- The body of both loops.
  unfoldable pub take_line : Host R → Turn → Line → Gateway C R F → Option (Gateway C R F)
  take_line h t line g = and_then (process_line h t line g) (λ r. some (note_error r))

  unfoldable pub ingest_file_loop :
      Host R → List (Turn × Line) → Gateway C R F → Option (Gateway C R F)
  ingest_file_loop h [] g = some g
  ingest_file_loop h ((t, line) ∷ lines) g = elim (is_blank line) [
    | true ↦ ingest_file_loop h lines g
    | false ↦ and_then (take_line h t line g) (λ g'. ingest_file_loop h lines g')
  ]
