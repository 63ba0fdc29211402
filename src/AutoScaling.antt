-- ===== src/AutoScaling.antt =====
-- libs/rust/core/src/autoscaling.rs: the auto scaler. `F` stands for `f32` and `D` for `f64`. Times are
-- nanoseconds, each reading of the clock is an argument, and `elapsed` stops at zero. `t > now - dur` is
-- written without the subtraction, which an `Instant` makes below zero. A call runs from start to end:
-- the locks are released between the test of the cooldown and the action, so this is the order of calls
-- that one task makes.
pub mod Sees
pub mod Windows
pub mod Cooldown
mod Tests
use swarm_intelligence_netwo.Prelude.{
  Distinct-snoc, all_recent, recent, length-recent, recent-recent, recent-append, make_room-push,
  push-make_room, ℕ, zero, suc, ◌+◌, ◌-◌, ◌*◌, ◌/◌, ◌%◌, ◌^◌, ◌≤◌, ◌<◌, min, max, String, ◌≡◌, refl,
  sym, ap, ◌∙◌, ◌≢◌, ◌↔◌, ◌⊎◌, inl, inr, Bool, true, false, not, ◌&&◌, ◌||◌, Option, none, some,
  List, [], ◌∷◌, ◌++◌, map, arith, ltb, leb, nat_beq, if◌then◌else◌, nat_beq_iff, Eq, ◌==◌,
  string_eq, nat_eq, pair_beq, pair_beq_iff, pair_eq, Bool-cases, Option-cases, some-injective,
  none-some, is_some, u64, u32, u8, u64_id, contains, insert, Distinct, Subset, equal_refl,
  contains-insert, contains-insert_self, length-insert, Distinct-insert, insert_of_contains,
  contains-append, contains-retain, Distinct-retain, length_mono-Subset, length-overlap, length,
  get_elem?, take, drop, replicate, retain, All, length-append, length-replicate, length-drop,
  length-take, take-append-drop, length-retain-le, All-append, length-map, Map, lookup, remove, put,
  lookup-remove, lookup-put,
}
use swarm_intelligence_netwo.Float.{Float, gt, mean}

pub record ResourceMetrics (F D : Type 0) : Type 0 where
  pub cpu_utilization : F
  pub memory_utilization : F
  pub network_throughput : D
  pub threat_volume : ℕ
  pub timestamp : ℕ

pub record ScalingThresholds (F : Type 0) : Type 0 where
  pub cpu_scale_out : F
  pub cpu_scale_in : F
  pub memory_scale_out : F
  pub memory_scale_in : F
  pub scale_out_duration : ℕ
  pub scale_in_duration : ℕ

pub data ScalingDecision : Type 0 where
  scale_out : ℕ → ScalingDecision
  scale_in : ℕ → ScalingDecision
  no_action : ScalingDecision

abbrev pub History : Type 0 → Type 0 → Type 0
History F D = List (ℕ × ResourceMetrics F D)

pub record AutoScaler (F D : Type 0) : Type 0 where
  pub thresholds : ScalingThresholds F
  pub metrics_history : History F D
  pub last_scale_action : Option ℕ
  pub cooldown_period : ℕ

-- The readings of the clock in `evaluate`: for the cooldown, in the two tests and the amount, and for
-- the time of the action.
pub record Readings : Type 0 where
  pub at_cooldown : ℕ
  pub at_scale_out : ℕ
  pub at_amount : ℕ
  pub at_scale_in : ℕ
  pub at_action : ℕ

abbrev pub secs : ℕ → ℕ
secs n = n * 10 ^ 9

-- How long the history is kept.
abbrev pub kept : ℕ
kept = secs (30 * 60)

abbrev pub is_nil : {A : Type 0} → List A → Bool
is_nil [] = true
is_nil (x ∷ xs) = false

abbrev pub is_recent : ℕ → ℕ → Option ℕ → Bool
is_recent now period none = false
is_recent now period (some last) = ltb (now - last) period

module _ {F D : Type 0} where
  unfoldable pub new : ScalingThresholds F → AutoScaler F D
  new thresholds = record {
    thresholds = thresholds;
    metrics_history = [];
    last_scale_action = none;
    cooldown_period = secs (5 * 60);
  }

  -- `retain`
  unfoldable pub forget : ℕ → History F D → History F D
  forget now [] = []
  forget now ((t, m) ∷ h) =
      let rest = forget now h in if ltb now (t + kept) then (t, m) ∷ rest else rest

  -- The clock is read for the entry and for the cutoff.
  unfoldable pub record_metrics : ℕ → ℕ → ResourceMetrics F D → AutoScaler F D → AutoScaler F D
  record_metrics at_push at_cutoff m s = record s {
    metrics_history = forget at_cutoff (s.metrics_history ++ (at_push, m) ∷ []);
  }

  unfoldable pub get_recent : ℕ → ℕ → History F D → List (ResourceMetrics F D)
  get_recent now dur [] = []
  get_recent now dur ((t, m) ∷ h) =
      let rest = get_recent now dur h in if ltb now (t + dur) then m ∷ rest else rest

  unfoldable pub cooling : ℕ → AutoScaler F D → Bool
  cooling now s = is_recent now s.cooldown_period s.last_scale_action

  -- The time of an action is noted.
  unfoldable pub note_action : ℕ → ScalingDecision → AutoScaler F D → AutoScaler F D
  note_action now (scale_out n) s = record s { last_scale_action = some now }
  note_action now (scale_in n) s = record s { last_scale_action = some now }
  note_action now no_action s = s

module _ {F : Type 0} ⦃f : Float F⦄ where
  abbrev pub default_thresholds : ScalingThresholds F
  default_thresholds = record {
    cpu_scale_out = f.lit 80 2;
    cpu_scale_in = f.lit 30 2;
    memory_scale_out = f.lit 90 2;
    memory_scale_in = f.lit 50 2;
    scale_out_duration = secs (5 * 60);
    scale_in_duration = secs (15 * 60);
  }

module _ {F D : Type 0} ⦃f : Float F⦄ where
  abbrev pub avg_cpu : List (ResourceMetrics F D) → F
  avg_cpu recent = mean (map (λ m. m.cpu_utilization) recent)

  abbrev pub avg_mem : List (ResourceMetrics F D) → F
  avg_mem recent = mean (map (λ m. m.memory_utilization) recent)

  unfoldable pub should_scale_out : ScalingThresholds F → ℕ → History F D → Bool
  should_scale_out t now h =
      let recent = get_recent now t.scale_out_duration h in
      if is_nil recent
      then false
      else gt (avg_cpu recent) t.cpu_scale_out || gt (avg_mem recent) t.memory_scale_out

  unfoldable pub should_scale_in : ScalingThresholds F → ℕ → History F D → Bool
  should_scale_in t now h =
      let recent = get_recent now t.scale_in_duration h in
      if is_nil recent
      then false
      else f.lt (avg_cpu recent) t.cpu_scale_in && f.lt (avg_mem recent) t.memory_scale_in

  unfoldable pub calculate_scale_out_amount : ℕ → History F D → ℕ
  calculate_scale_out_amount now h =
      let recent = get_recent now (secs 60) h in
      if is_nil recent
      then 1
      else if gt (avg_cpu recent) (f.lit 95 2)
      then 3
      else if gt (avg_cpu recent) (f.lit 85 2)
      then 2
      else 1

  unfoldable pub calculate_scale_in_amount : History F D → ℕ
  calculate_scale_in_amount h = 1

  -- `evaluate` after the cooldown.
  unfoldable pub decision : ScalingThresholds F → Readings → History F D → ScalingDecision
  decision t r h =
      if is_nil h
      then no_action
      else if should_scale_out t r.at_scale_out h
      then scale_out (calculate_scale_out_amount r.at_amount h)
      else if should_scale_in t r.at_scale_in h
      then scale_in (calculate_scale_in_amount h)
      else no_action

  unfoldable pub evaluate : Readings → AutoScaler F D → AutoScaler F D × ScalingDecision
  evaluate r s =
      let d = decision s.thresholds r s.metrics_history in
      if cooling r.at_cooldown s then (s, no_action) else (note_action r.at_action d s, d)
