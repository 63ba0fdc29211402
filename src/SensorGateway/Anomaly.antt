-- ===== src/SensorGateway/Anomaly.antt =====
-- services/sensor-gateway/src/detection/anomaly.rs: the anomaly detector. Times are nanoseconds; each
-- reading of the clock is an argument, and `duration_since` stops at zero. `t < now - horizon` is
-- written without the subtraction, which an `Instant` makes below zero. `F` stands for `f64`.
pub mod Windows
pub mod Forget
pub mod Verdict
use swarm_intelligence_netwo.Prelude.{
  Distinct-snoc, all_recent, recent, length-recent, recent-recent, recent-append, make_room-push,
  push-make_room, ℕ, zero, suc, ◌+◌, ◌-◌, ◌*◌, ◌/◌, ◌%◌, ◌^◌, ◌≤◌, ◌<◌, min, max, String, ◌≡◌, refl,
  sym, ap, ◌∙◌, ◌≢◌, ◌↔◌, ◌⊎◌, inl, inr, Bool, true, false, not, ◌&&◌, ◌||◌, Option, none, some,
  List, [], ◌∷◌, ◌++◌, map, arith, ltb, leb, nat_beq, if◌then◌else◌, nat_beq_iff, Eq, ◌==◌,
  string_eq, nat_eq, pair_beq, pair_beq_iff, pair_eq, Bool-cases, Option-cases, is_some, u64, u32,
  u8, u64_id, contains, insert, Distinct, Subset, equal_refl, contains-insert, contains-insert_self,
  length-insert, Distinct-insert, insert_of_contains, contains-append, contains-retain,
  Distinct-retain, length_mono-Subset, length-overlap, length, get_elem?, take, drop, replicate,
  retain, All, length-append, length-drop, length-take, take-append-drop, length-retain-le,
  All-append, length-map, Map, lookup, remove, put, lookup-remove, lookup-put,
}
use swarm_intelligence_netwo.Float.{Float}

pub record AnomalyStats : Type 0 where
  pub window_1m : ℕ
  pub window_5m : ℕ
  pub window_15m : ℕ

pub record AnomalyConfig (F : Type 0) : Type 0 where
  pub threshold_ratio : F
  pub min_events : ℕ

-- The time and the size of each line, the oldest first.
abbrev pub Events : Type 0
Events = List (ℕ × ℕ)

pub record AnomalyDetector (F : Type 0) : Type 0 where
  pub events : Events
  pub last_prune : ℕ
  pub cfg : AnomalyConfig F

-- The readings of the clock in one call: in `record`, in `prune` and in `compute_stats`.
pub record Clock : Type 0 where
  pub now : ℕ
  pub at_prune : ℕ
  pub at_stats : ℕ

abbrev pub second : ℕ
second = 10 ^ 9

-- `duration_since(..).as_secs()`
abbrev pub as_secs : ℕ → ℕ → ℕ
as_secs now t = (now - t) / second

unfoldable pub prune : ℕ → ℕ → Events → Events
prune now horizon_secs [] = []
prune now horizon_secs ((t, size) ∷ events) =
    let rest = prune now horizon_secs events in
    if ltb (t + horizon_secs * second) now then rest else (t, size) ∷ events

abbrev pub no_events : AnomalyStats
no_events = record { window_1m = 0; window_5m = 0; window_15m = 0 }

abbrev pub tally : ℕ → AnomalyStats → AnomalyStats
tally age s = record {
  window_1m = if leb age 60 then s.window_1m + 1 else s.window_1m;
  window_5m = if leb age (60 * 5) then s.window_5m + 1 else s.window_5m;
  window_15m = if leb age (60 * 15) then s.window_15m + 1 else s.window_15m;
}

-- The loop over the events, the newest first. It ends at the first one older than 15 minutes.
unfoldable pub count_back : ℕ → Events → AnomalyStats → AnomalyStats
count_back now [] s = s
count_back now ((t, size) ∷ events) s =
    let rest = count_back now events (tally (as_secs now t) s) in
    if ltb (60 * 15) (as_secs now t) then tally (as_secs now t) s else rest

abbrev pub reverse_onto : Events → Events → Events
reverse_onto [] out = out
reverse_onto (e ∷ es) out = reverse_onto es (e ∷ out)

unfoldable pub compute_stats : ℕ → Events → AnomalyStats
compute_stats now events = count_back now (reverse_onto events []) no_events

module _ {F : Type 0} ⦃f : Float F⦄ where
  abbrev pub default_config : AnomalyConfig F
  default_config = record { threshold_ratio = f.lit 25 1; min_events = 50 }

  -- The test, on the events of the last minute and of the last five.
  unfoldable pub exceeds : AnomalyConfig F → ℕ → ℕ → Bool
  exceeds cfg window_1m window_5m =
      let short = f.of_nat window_1m in
      let mid = f.max_of (f.div (f.of_nat window_5m) (f.lit 5 0)) (f.lit 1 0) in
      leb cfg.min_events window_5m
      && (f.lt (f.lit 0 0) mid && f.le cfg.threshold_ratio (f.div short mid))

module _ {F : Type 0} where
  unfoldable pub new : AnomalyConfig F → ℕ → AnomalyDetector F
  new cfg now = record { events = []; last_prune = now; cfg = cfg }

  -- The part of `record` that changes the detector.
  unfoldable pub push_event : Clock → ℕ → AnomalyDetector F → AnomalyDetector F
  push_event c size d =
      let events = d.events ++ (c.now, size) ∷ [] in
      if ltb 10 (as_secs c.now d.last_prune)
      then record d { events = prune c.at_prune (60 * 15) events; last_prune = c.now }
      else record d { events = events }

-- `record`; its result is always `Some`.
unfoldable pub record_size :
    {F : Type 0} ⦃f : Float F⦄ → Clock → ℕ → AnomalyDetector F → AnomalyDetector F × Option Bool
unfolding push_event
record_size c size d =
    let d' = push_event c size d in
    let stats = compute_stats c.at_stats d'.events in
    (d', some (exceeds d'.cfg stats.window_1m stats.window_5m))
