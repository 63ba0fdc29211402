-- ===== src/SensorGateway/Ingest/Loop.antt =====
-- services/sensor-gateway/src/main.rs: a run over the lines of a file.
use swarm_intelligence_netwo.Prelude.{
  ℕ, suc, ◌+◌, ◌≡◌, refl, sym, ap, ◌≢◌, inl, inr, Bool, true, false, Option, none, some, List, [],
  ◌∷◌, if◌then◌else◌, string_eq, nat_eq, pair_eq, Bool-cases, is_some, u64, All,
}
use swarm_intelligence_netwo.Float.{Float}
use swarm_intelligence_netwo.SensorGateway.Rules.{and_then}
use swarm_intelligence_netwo.SensorGateway.Anomaly.{Clock, record_size}
use swarm_intelligence_netwo.SensorGateway.Engine.{
  Line, DetectionEvent, DetectionEngine, Matcher, scan, match_rules, detect_anomaly, is_true,
  anomaly_event, byte_len,
}
use swarm_intelligence_netwo.SensorGateway.Ingest.{
  Metrics, Host, Gateway, RawEvent, Turn, count_detections, classify, send, detect, raw_event,
  process_line, take_line, has_infix, malicious, is_blank, ingest_file_loop,
}
use swarm_intelligence_netwo.SensorGateway.Ingest.Tally.{
  IsUsable, AllKnown, match_rules-AllKnown, count_detections-Counts, Adds, Adds-trans, Adds-none,
  classify-Adds, one_if, finished,
}
use swarm_intelligence_netwo.SensorGateway.Ingest.Run.{send-Keeps, alert_all-Keeps, AllKnown-found}

AllKnown-if : (ds : List DetectionEvent) (b : Bool) → AllKnown ds → AllKnown (if b then ds else [])
AllKnown-if ds true k = k
AllKnown-if ds false k = tt

true-false : false ≢ true
true-false e = cc

is_some-some : {A : Type 0} (o : Option A) → is_some o ≡ true → (a : A) × (o ≡ some a)
is_some-some none h = absurd (true-false h)
is_some-some (some a) h = (a, refl)

Adds-from : {n p : ℕ} {m m1 m2 : Metrics} → m1 ≡ m → Adds n p m1 m2 → Adds n p m m2
Adds-from e a = rw (sym e) a

Adds-at : {n p : ℕ} {m m1 m2 : Metrics} → m2 ≡ m1 → Adds n p m m1 → Adds n p m m2
Adds-at e a = rw e a

-- The clock gives a time for every line.
abbrev pub AllTimed : List (Turn × Line) → Type 0
AllTimed lines = All (λ turn. is_some turn.0.millis ≡ true) lines

abbrev pub busy : List (Turn × Line) → ℕ
busy [] = 0
busy ((t, line) ∷ lines) = let rest = busy lines in if is_blank line then rest else suc rest

abbrev pub harmful : List (Turn × Line) → ℕ
harmful [] = 0
harmful ((t, line) ∷ lines) =
    let rest = harmful lines in
    if is_blank line then rest else one_if (has_infix malicious line) + rest

module _ {R F : Type 0} ⦃f : Float F⦄ where
  scan-AllKnown :
      (m : Matcher R) (c : Clock) (line : Line) (e : DetectionEngine R F)
      → AllKnown (scan m c line e).1
  unfolding scan detect_anomaly
  scan-AllKnown m c line e =
      let matched = if e.signature_enabled then match_rules m line e.rules.rules else [] in
      let known : AllKnown matched =
        AllKnown-if (match_rules m line e.rules.rules) e.signature_enabled
          (match_rules-AllKnown m line e.rules.rules) in
      let verdict = (record_size c (byte_len line) e.anomaly).1 in
      let event = anomaly_event line (m.sha256_hex line) in
      elim (Bool-cases e.enabled) [
        | inr off ↦ rw off tt
        | inl on ↦ elim (Bool-cases e.anomaly_enabled) [
          | inl anomaly_on ↦
              rw (on, anomaly_on) (AllKnown-found matched (is_true verdict) event known (refl, tt))
          | inr anomaly_off ↦
              rw (on, anomaly_off) (AllKnown-found matched false event known (refl, tt))
        ]
      ]

module _ {C R F : Type 0} ⦃f : Float F⦄ where
  -- `o` ends, in a usable state whose counters have grown by `n` lines, `p` of them malicious.
  pub record Progress (n p : ℕ) (g : Gateway C R F) (o : Option (Gateway C R F)) : Type 0 where
    pub result : Gateway C R F
    pub ends : o ≡ some result
    pub usable : IsUsable result.pool
    pub adds : Adds n p g.metrics result.metrics

  detect-Progress :
      (h : Host R) (c : Clock) (line : Line) (g : Gateway C R F)
      → IsUsable g.pool
      → Progress 1 (one_if (has_infix malicious line)) g (detect h c line g)
  unfolding detect
  detect-Progress h c line g u =
      let found = scan h.matcher c line g.engine in
      let counted = count_detections h.to_lowercase found.1 g.metrics in
      let positive = has_infix malicious line in
      let g1 = record g { engine = found.0; metrics = classify positive found.1 counted } in
      let k = alert_all-Keeps h found.1 g1 u in
      let counts =
        count_detections-Counts h.to_lowercase found.1 g.metrics
          (scan-AllKnown h.matcher c line g.engine) in
      let adds = classify-Adds positive found.1 g.metrics counted counts in
      record {
        result = record k.result { metrics = finished k.result.metrics };
        ends =
            ap
              (λ (o : Option (Gateway C R F)).
                and_then o (λ g'. some (record g' { metrics = finished g'.metrics })))
              k.ends;
        usable = k.usable;
        adds = Adds-at (ap finished k.same_metrics) adds;
      }

  process_line-sent :
      (h : Host R) (t : Turn) (line : Line) (g : Gateway C R F) (ts : ℕ) (bytes : List ℕ)
      → t.millis ≡ some ts
      → h.encode (raw_event h (u64 ts) line) ≡ some bytes
      → process_line h t line g
        ≡ and_then
            (send "ingest.v1.raw" bytes g)
            (λ g'. and_then (detect h t.clock line g') (λ g''. some (g'', true)))
  unfolding process_line
  process_line-sent h t line g ts bytes timed encoded = rw (timed, process_line, encoded) refl

  take_line-Progress :
      (h : Host R) (t : Turn) (line : Line) (g : Gateway C R F) (ts : ℕ) (bytes : List ℕ)
      → t.millis ≡ some ts
      → h.encode (raw_event h (u64 ts) line) ≡ some bytes
      → IsUsable g.pool
      → Progress 1 (one_if (has_infix malicious line)) g (take_line h t line g)
  unfolding take_line
  take_line-Progress h t line g ts bytes timed encoded u =
      let k = send-Keeps "ingest.v1.raw" bytes g u in
      let d = detect-Progress h t.clock line k.result k.usable in
      record {
        result = d.result;
        ends = rw (process_line-sent h t line g ts bytes timed encoded, k.ends, d.ends) refl;
        usable = d.usable;
        adds = Adds-from k.same_metrics d.adds;
      }

  -- Every line of a file gets a time, every event can be encoded, and the gateway has a pool with a
  -- connection, or none. Then the loop over the lines ends, and no line is an error. Each line that is
  -- not blank is counted as an event; the true positives and the missed detections grow together by
  -- the lines that hold MALICIOUS; the true and false positives by no more than the detections that
  -- are counted by kind; and so do the detections that are counted by severity.
  pub ingest_file_loop-Progress :
      (h : Host R) (lines : List (Turn × Line)) (g : Gateway C R F)
      → AllTimed lines
      → ((e : RawEvent) → is_some (h.encode e) ≡ true)
      → IsUsable g.pool
      → Progress (busy lines) (harmful lines) g (ingest_file_loop h lines g)
  unfolding ingest_file_loop
  ingest_file_loop-Progress h [] g timed encodes u = record {
    result = g;
    ends = refl;
    usable = u;
    adds = Adds-none g.metrics;
  }
  ingest_file_loop-Progress h ((t, line) ∷ lines) g (timed, rest) encodes u =
      elim (Bool-cases (is_blank line)) [
        | inl blank ↦
            rw (blank, ingest_file_loop) (ingest_file_loop-Progress h lines g rest encodes u)
        | inr busy_line ↦
            let (ts, e) = is_some-some t.millis timed in
            let (bytes, e') =
              is_some-some (h.encode (raw_event h (u64 ts) line))
                (encodes (raw_event h (u64 ts) line)) in
            let first = take_line-Progress h t line g ts bytes e e' u in
            let later = ingest_file_loop-Progress h lines first.result rest encodes first.usable in
            rw (busy_line, ingest_file_loop)
              (record {
                result = later.result;
                ends = rw first.ends later.ends;
                usable = later.usable;
                adds =
                    Adds-trans (busy lines) (one_if (has_infix malicious line)) (harmful lines)
                      g.metrics first.result.metrics later.result.metrics first.adds later.adds;
              })
      ]
