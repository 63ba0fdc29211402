-- ===== src/SensorGateway/Ingest/Run.antt =====
-- services/sensor-gateway/src/main.rs: publication and alerts leave counters and engine alone.
use swarm_intelligence_netwo.Prelude.{
  ℕ, ◌<◌, String, ◌≡◌, refl, sym, ap, ◌∙◌, inl, inr, Bool, true, false, ◌||◌, Option, none, some,
  List, [], ◌∷◌, ◌++◌, if◌then◌else◌, ◌==◌, string_eq, nat_eq, pair_eq, Bool-cases, Option-cases,
  some-injective, none-some, length, All-append,
}
use swarm_intelligence_netwo.Float.{Float}
use swarm_intelligence_netwo.SensorGateway.NatsPool.{
  NatsPool, publish, get_connection, get_connection-some,
}
use swarm_intelligence_netwo.SensorGateway.Rules.{and_then}
use swarm_intelligence_netwo.SensorGateway.Engine.{DetectionEvent}
use swarm_intelligence_netwo.SensorGateway.Ingest.{
  Host, Gateway, send, send_via, handed_over, alert, alert_via, alert_json, alert_all,
}
use swarm_intelligence_netwo.SensorGateway.Ingest.Tally.{IsUsable, AllKnown}

pub AllKnown-found :
    (ds : List DetectionEvent) (b : Bool) (d : DetectionEvent)
    → AllKnown ds
    → AllKnown (d ∷ [])
    → AllKnown (ds ++ (if b then d ∷ [] else []))
AllKnown-found ds true d k one =
    All-append (λ e. (e.kind == "signature" || e.kind == "anomaly") ≡ true) ds (d ∷ []) k one
AllKnown-found ds false d k one =
    All-append (λ e. (e.kind == "signature" || e.kind == "anomaly") ≡ true) ds [] k tt

usable_some :
    {C : Type 0} {o : Option (NatsPool C)} {p : NatsPool C}
    → o ≡ some p
    → IsUsable o
    → 0 < length p.connections
usable_some {o = none} e u = absurd (none-some e)
usable_some {o = some q} e u = rw (sym (some-injective e)) u

published :
    {C : Type 0} (subject : String) (payload : List ℕ) (p p' : NatsPool C) (c : C)
    → get_connection p ≡ some (c, p')
    → publish subject payload p ≡ some (p', (c, subject, payload))
unfolding publish
published subject payload p p' c got = rw (got, publish) refl

module _ {C R F : Type 0} ⦃f : Float F⦄ where
  -- `o` ends, in a state whose pool can be used and that has the metrics and the engine of `g`.
  pub record Keeps (g : Gateway C R F) (o : Option (Gateway C R F)) : Type 0 where
    pub result : Gateway C R F
    pub ends : o ≡ some result
    pub usable : IsUsable result.pool
    pub same_metrics : result.metrics ≡ g.metrics
    pub same_engine : result.engine ≡ g.engine

  pub send-Keeps :
      (subject : String) (payload : List ℕ) (g : Gateway C R F)
      → IsUsable g.pool
      → Keeps g (send subject payload g)
  unfolding send
  send-Keeps subject payload g u = elim (Option-cases g.pool) [
    | inl no_pool ↦ record {
      result = g;
      ends = ap (send_via subject payload g) no_pool;
      usable = u;
      same_metrics = refl;
      same_engine = refl;
    }
    | inr (p, there) ↦
        let some_connection : 0 < length p.connections = usable_some there u in
        let (c, p', got, same) = get_connection-some p some_connection in
        record {
          result = record g { pool = some p'; sent = g.sent ++ (c, subject, payload) ∷ [] };
          ends =
              ap (send_via subject payload g) there
              ∙ ap (handed_over g) (published subject payload p p' c got);
          usable = rw (ap (λ (cs : List C). length cs) same) some_connection;
          same_metrics = refl;
          same_engine = refl;
        }
  ]

  Keeps-then :
      (g : Gateway C R F) (o : Option (Gateway C R F)) (k : Gateway C R F → Option (Gateway C R F))
      → Keeps g o
      → ((g' : Gateway C R F) → IsUsable g'.pool → Keeps g' (k g'))
      → Keeps g (and_then o k)
  Keeps-then g o k first rest =
      let second = rest first.result first.usable in
      record {
        result = second.result;
        ends = rw first.ends second.ends;
        usable = second.usable;
        same_metrics = second.same_metrics ∙ first.same_metrics;
        same_engine = second.same_engine ∙ first.same_engine;
      }

  log-Keeps :
      (h : Host R) (json : List ℕ) (g : Gateway C R F)
      → IsUsable g.pool
      → Keeps g (some (if h.has_log then record g { log = g.log ++ json ∷ [] } else g))
  log-Keeps h json g u = elim (Bool-cases h.has_log) [
    | inl yes_log ↦ rw yes_log (record {
      result = record g { log = g.log ++ json ∷ [] };
      ends = refl;
      usable = u;
      same_metrics = refl;
      same_engine = refl;
    })
    | inr no_log ↦
        rw no_log
          (record { result = g; ends = refl; usable = u; same_metrics = refl; same_engine = refl })
  ]

  idle-Keeps : (g : Gateway C R F) → IsUsable g.pool → Keeps g (some g)
  idle-Keeps g u = record {
    result = g;
    ends = refl;
    usable = u;
    same_metrics = refl;
    same_engine = refl;
  }

  Keeps-eq : {g : Gateway C R F} {o o' : Option (Gateway C R F)} → o ≡ o' → Keeps g o' → Keeps g o
  Keeps-eq e k = record {
    result = k.result;
    ends = e ∙ k.ends;
    usable = k.usable;
    same_metrics = k.same_metrics;
    same_engine = k.same_engine;
  }

  alert-without :
      (h : Host R) (d : DetectionEvent) (g : Gateway C R F) → g.pool ≡ none → alert h d g ≡ some g
  unfolding alert
  alert-without h d g e = ap (alert_via h d g) e

  alert-unserialised :
      (h : Host R) (d : DetectionEvent) (g : Gateway C R F) (p : NatsPool C)
      → g.pool ≡ some p
      → h.to_vec d ≡ none
      → alert h d g ≡ some g
  unfolding alert
  alert-unserialised h d g p e e' = ap (alert_via h d g) e ∙ ap (alert_json h g) e'

  alert-sent :
      (h : Host R) (d : DetectionEvent) (g : Gateway C R F) (p : NatsPool C) (json : List ℕ)
      → g.pool ≡ some p
      → h.to_vec d ≡ some json
      → alert h d g
        ≡ and_then
            (send "threat.v1.alert.detected" json g)
            (λ g'. some (if h.has_log then record g' { log = g'.log ++ json ∷ [] } else g'))
  unfolding alert
  alert-sent h d g p json e e' = ap (alert_via h d g) e ∙ ap (alert_json h g) e'

  alert-Keeps :
      (h : Host R) (d : DetectionEvent) (g : Gateway C R F)
      → IsUsable g.pool
      → Keeps g (alert h d g)
  alert-Keeps h d g u = elim (Option-cases g.pool) [
    | inl no_pool ↦ Keeps-eq (alert-without h d g no_pool) (idle-Keeps g u)
    | inr (p, there) ↦ elim (Option-cases (h.to_vec d)) [
      | inl bad ↦ Keeps-eq (alert-unserialised h d g p there bad) (idle-Keeps g u)
      | inr (json, good) ↦ Keeps-eq (alert-sent h d g p json there good) (
          Keeps-then g (send "threat.v1.alert.detected" json g)
            (λ g'. some (if h.has_log then record g' { log = g'.log ++ json ∷ [] } else g'))
            (send-Keeps "threat.v1.alert.detected" json g u) (log-Keeps h json))
    ]
  ]

  pub alert_all-Keeps :
      (h : Host R) (ds : List DetectionEvent) (g : Gateway C R F)
      → IsUsable g.pool
      → Keeps g (alert_all h ds g)
  unfolding alert_all
  alert_all-Keeps h [] g u = idle-Keeps g u
  alert_all-Keeps h (d ∷ ds) g u =
      Keeps-then g (alert h d g) (λ g'. alert_all h ds g') (alert-Keeps h d g u)
        (alert_all-Keeps h ds)
