-- ===== src/SensorGateway/Anomaly/Windows.antt =====
-- services/sensor-gateway/src/detection/anomaly.rs: what the loop that counts back arrives at.
use swarm_intelligence_netwo.Prelude.{
  ℕ, ◌+◌, ◌*◌, ◌≤◌, ◌<◌, ◌≡◌, refl, [], ◌∷◌, ◌++◌, arith, leb, if◌then◌else◌, string_eq, nat_eq,
  pair_eq,
}
use swarm_intelligence_netwo.SensorGateway.Anomaly.{
  no_events, compute_stats, reverse_onto, reverse_onto, AnomalyStats, Events, as_secs, tally,
  count_back,
}

-- How many events are at most `secs` full seconds old.
abbrev pub within : ℕ → ℕ → Events → ℕ
within secs now [] = 0
within secs now ((t, size) ∷ events) =
    let rest = within secs now events in if leb (as_secs now t) secs then rest + 1 else rest

-- No event is later than `last`, and each comes after those before it: the newest first.
abbrev pub Descending : ℕ → Events → Type 0
Descending last [] = Unit
Descending last ((t, size) ∷ events) = (t ≤ last) × Descending t events

within-old :
    (secs now last : ℕ) (events : Events)
    → Descending last events
    → secs < as_secs now last
    → within secs now events ≡ 0
within-old secs now last [] d h = refl
within-old secs now last ((t, size) ∷ events) (le, d) h =
    let older : secs < as_secs now t = omega arith in
    ground (arith, within-old secs now t events d older)

abbrev plus : AnomalyStats → ℕ → Events → AnomalyStats
plus s now events = record {
  window_1m = s.window_1m + within 60 now events;
  window_5m = s.window_5m + within (60 * 5) now events;
  window_15m = s.window_15m + within (60 * 15) now events;
}

pub stats_ext :
    (s t : AnomalyStats)
    → s.window_1m ≡ t.window_1m
    → s.window_5m ≡ t.window_5m
    → s.window_15m ≡ t.window_15m
    → s ≡ t
stats_ext s t a b c = ground (arith, a, b, c)

count_back-plus :
    (now last : ℕ) (events : Events) (s : AnomalyStats)
    → Descending last events
    → count_back now events s ≡ plus s now events
unfolding count_back
count_back-plus now last [] s d = ground arith
count_back-plus now last ((t, size) ∷ events) s (le, d) = ground (
  arith,
  count_back-plus now t events (tally (as_secs now t) s) d,
  within-old 60 now t events d,
  within-old (60 * 5) now t events d,
  within-old (60 * 15) now t events d,
)

-- The times run from `lo` to `hi` and never back: the oldest event first.
abbrev pub Ordered : ℕ → Events → ℕ → Type 0
Ordered lo [] hi = lo ≤ hi
Ordered lo ((t, size) ∷ events) hi = (lo ≤ t) × Ordered t events hi

Descending-mono :
    (lo hi : ℕ) (events : Events) → lo ≤ hi → Descending lo events → Descending hi events
Descending-mono lo hi [] le d = tt
Descending-mono lo hi ((t, size) ∷ events) le (le', d) = (omega arith, d)

Descending-reverse :
    (lo hi : ℕ) (events out : Events)
    → Ordered lo events hi
    → Descending lo out
    → Descending hi (reverse_onto events out)
Descending-reverse lo hi [] out le d = Descending-mono lo hi out le d
Descending-reverse lo hi ((t, size) ∷ events) out (le, o) d =
    Descending-reverse t hi events ((t, size) ∷ out) o (omega arith, Descending-mono lo t out le d)

within-reverse :
    (secs now : ℕ) (events out : Events)
    → within secs now (reverse_onto events out) ≡ within secs now events + within secs now out
within-reverse secs now [] out = omega arith
within-reverse secs now ((t, size) ∷ events) out =
    ground (arith, within-reverse secs now events ((t, size) ∷ out))

-- For events in the order of their times, the loop that counts back and stops early counts what the
-- three windows hold of all of them.
pub compute_stats-within :
    (now lo hi : ℕ) (events : Events)
    → Ordered lo events hi
    → compute_stats now events ≡ record {
      window_1m = within 60 now events;
      window_5m = within (60 * 5) now events;
      window_15m = within (60 * 15) now events;
    }
unfolding compute_stats
compute_stats-within now lo hi events o = ground (
  arith,
  count_back-plus now hi (reverse_onto events []) no_events
      (Descending-reverse lo hi events [] o tt),
  within-reverse 60 now events [],
  within-reverse (60 * 5) now events [],
  within-reverse (60 * 15) now events [],
)

pub within-append :
    (secs now : ℕ) (xs ys : Events)
    → within secs now (xs ++ ys) ≡ within secs now xs + within secs now ys
within-append secs now [] ys = omega arith
within-append secs now ((t, size) ∷ xs) ys = ground (arith, within-append secs now xs ys)
