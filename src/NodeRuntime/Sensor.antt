-- ===== src/NodeRuntime/Sensor.antt =====
-- services/node-runtime/src/modules/sensor.rs: the readings that a node keeps. The times that the
-- clock gives are arguments; `tick` is one turn of the loop that `start` spawns.
use mathlib.Core.List.{append_assoc, append-nil}
use swarm_intelligence_netwo.Prelude.{
  recent, length-recent, recent-recent, recent-append, make_room-push, ℕ, ◌-◌, ◌≤◌, min, String,
  ◌≡◌, refl, sym, ap, ◌∙◌, inl, inr, Bool, true, false, List, [], ◌∷◌, ◌++◌, arith, ltb, leb,
  if◌then◌else◌, string_eq, nat_eq, pair_eq, Bool-cases, length, drop, Map,
}

pub data SensorType : Type 0 where
  network_traffic : SensorType
  system_behavior : SensorType
  user_activity : SensorType
  threat_intel : SensorType

pub record SensorReading : Type 0 where
  pub timestamp : ℕ
  pub sensor_type : SensorType
  pub data_bytes : List ℕ
  pub metadata : Map String String

pub record SensorConfig : Type 0 where
  pub buffer_size : ℕ
  pub sampling_rate_ms : ℕ
  pub enable_network : Bool
  pub enable_system : Bool
  pub enable_user : Bool

pub record SensorModule : Type 0 where
  pub config : SensorConfig
  pub readings : List SensorReading
  pub enabled : Bool

abbrev pub default_config : SensorConfig
default_config = record {
  buffer_size = 1000;
  sampling_rate_ms = 100;
  enable_network = true;
  enable_system = true;
  enable_user = false;
}

unfoldable pub new : SensorConfig → SensorModule
new config = record { config = config; readings = []; enabled = true }

-- The end of both `collect` functions.
unfoldable pub push_reading : SensorReading → List SensorReading → List SensorReading
push_reading x r = (if leb 1000 (length r) then drop 1 r else r) ++ x ∷ []

abbrev pub reading : SensorType → ℕ → SensorReading
reading kind now = record { timestamp = now; sensor_type = kind; data_bytes = []; metadata = [] }

unfoldable pub collect_network_data : ℕ → List SensorReading → List SensorReading
collect_network_data now r = push_reading (reading network_traffic now) r

unfoldable pub collect_system_data : ℕ → List SensorReading → List SensorReading
collect_system_data now r = push_reading (reading system_behavior now) r

unfoldable pub tick : ℕ → ℕ → SensorModule → SensorModule
tick now later m =
    let r = if m.config.enable_network then collect_network_data now m.readings else m.readings in
    record m { readings = if m.config.enable_system then collect_system_data later r else r }

unfoldable pub get_recent_readings : ℕ → SensorModule → List SensorReading
get_recent_readings count m =
    let n = length m.readings in drop (if ltb count n then n - count else 0) m.readings

unfoldable pub set_enabled : Bool → SensorModule → SensorModule
set_enabled on m = record m { enabled = on }

-- What one turn of the loop reads.
abbrev pub sampled : SensorConfig → ℕ × ℕ → List SensorReading
sampled c (now, later) =
    (if c.enable_network then reading network_traffic now ∷ [] else [])
    ++ (if c.enable_system then reading system_behavior later ∷ [] else [])

abbrev pub all_sampled : SensorConfig → List (ℕ × ℕ) → List SensorReading
all_sampled c [] = []
all_sampled c (t ∷ ts) = sampled c t ++ all_sampled c ts

unfoldable pub ticks : List (ℕ × ℕ) → SensorModule → SensorModule
ticks [] m = m
ticks ((now, later) ∷ ts) m = ticks ts (tick now later m)

-- The buffer holds the last readings of `all`.
abbrev Keeps : List SensorReading → List SensorReading → Type 0
Keeps all r = r ≡ recent 1000 all

push_reading-Keeps :
    (x : SensorReading) (all r : List SensorReading)
    → Keeps all r
    → Keeps (all ++ x ∷ []) (push_reading x r)
unfolding push_reading
push_reading-Keeps x all r kept =
    let small : length r ≤ 1000 =
      omega (arith, length-recent 1000 all, ap (λ (s : List SensorReading). length s) kept) in
    make_room-push 1000 r x (omega arith) small
    ∙ ap (λ (s : List SensorReading). recent 1000 (s ++ x ∷ [])) kept
    ∙ recent-append 1000 all (x ∷ [])

tick-Keeps :
    (now later : ℕ) (m : SensorModule) (all : List SensorReading)
    → Keeps all m.readings
    → Keeps (all ++ sampled m.config (now, later)) (tick now later m).readings
unfolding tick collect_network_data collect_system_data
tick-Keeps now later m all kept =
    let a = reading network_traffic now in
    let b = reading system_behavior later in
    elim (Bool-cases m.config.enable_network) [
      | inl on ↦ elim (Bool-cases m.config.enable_system) [
        | inl both ↦
            rw (on, both, sym (append_assoc all (a ∷ []) (b ∷ [])))
              (push_reading-Keeps b (all ++ a ∷ []) (push_reading a m.readings)
                (push_reading-Keeps a all m.readings kept))
        | inr only ↦ rw (on, only) (push_reading-Keeps a all m.readings kept)
      ]
      | inr off ↦ elim (Bool-cases m.config.enable_system) [
        | inl only ↦ rw (off, only) (push_reading-Keeps b all m.readings kept)
        | inr neither ↦ rw (off, neither, append-nil) kept
      ]
    ]

ticks-Keeps :
    (ts : List (ℕ × ℕ)) (m : SensorModule) (all : List SensorReading)
    → Keeps all m.readings
    → Keeps (all ++ all_sampled m.config ts) (ticks ts m).readings
unfolding ticks tick
ticks-Keeps [] m all kept = rw append-nil kept
ticks-Keeps ((now, later) ∷ ts) m all kept =
    rw (sym (append_assoc all (sampled m.config (now, later)) (all_sampled m.config ts))) (
      ticks-Keeps ts (tick now later m) (all ++ sampled m.config (now, later))
        (tick-Keeps now later m all kept))

-- After any turns of the loop of a new sensor module, `get_recent_readings` gives the last `count`
-- of all the readings that the turns have taken, and never more than 1000.
pub get_recent_readings-ticks :
    (count : ℕ) (config : SensorConfig) (ts : List (ℕ × ℕ))
    → get_recent_readings count (ticks ts (new config))
      ≡ recent (min count 1000) (all_sampled config ts)
unfolding get_recent_readings new
get_recent_readings-ticks count config ts =
    let m = ticks ts (new config) in
    let kept : m.readings ≡ recent 1000 (all_sampled config ts) =
      ticks-Keeps ts (new config) [] refl in
    let from : (if ltb count (length m.readings) then length m.readings - count else 0)
        ≡ length m.readings - count =
      ground arith in
    rw (from, kept) (recent-recent count 1000 (all_sampled config ts))
