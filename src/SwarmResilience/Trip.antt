-- ===== src/SwarmResilience/Trip.antt =====
-- libs/rust/resilience/src/lib.rs: the breaker opens as `Resilience.Streak` promises, and the trial
-- after its timeout starts it afresh.
use swarm_intelligence_netwo.Prelude.{
  ℕ, ◌+◌, ◌-◌, ◌^◌, ◌≤◌, ◌<◌, ◌≡◌, refl, true, none, some, List, [], ◌∷◌, arith, leb, nat_eq,
  string_eq, pair_eq, is_some,
}
use swarm_intelligence_netwo.Resilience.Streak.{Report, success, failure, tripped}
use swarm_intelligence_netwo.SwarmResilience.{CircuitBreaker, new, allow, report}

pub record Inv (b : CircuitBreaker) : Type 0 where
  pub threshold_pos : 0 < b.failure_threshold
  pub threshold_fits : b.failure_threshold < 2 ^ 32
  pub closed_below : b.opened_at ≡ none → b.failures < b.failure_threshold

pub new-Inv : (threshold after : ℕ) → 0 < threshold → threshold < 2 ^ 32 → Inv (new threshold after)
unfolding new
new-Inv threshold after h f = ground arith

report-Inv : (now : ℕ) (r : Report) (b : CircuitBreaker) → Inv b → Inv (report now r b)
unfolding report
report-Inv now success b v = ground arith
report-Inv now failure b v = ground arith

pub allow-Inv : (now : ℕ) (b : CircuitBreaker) → Inv b → Inv (allow now b).0
unfolding allow
allow-Inv now b v = ground arith

unfoldable pub feed : List (ℕ × Report) → CircuitBreaker → CircuitBreaker
feed [] b = b
feed ((now, r) ∷ rs) b = feed rs (report now r b)

abbrev pub reports : List (ℕ × Report) → List Report
reports [] = []
reports ((now, r) ∷ rs) = r ∷ reports rs

report_of_open :
    (now : ℕ) (r : Report) (b : CircuitBreaker)
    → is_some b.opened_at ≡ true
    → is_some (report now r b).opened_at ≡ true
unfolding report
report_of_open now success b h = ground arith
report_of_open now failure b h = ground arith

feed_of_open :
    (rs : List (ℕ × Report)) (b : CircuitBreaker)
    → is_some b.opened_at ≡ true
    → is_some (feed rs b).opened_at ≡ true
unfolding feed
feed_of_open [] b h = h
feed_of_open ((now, r) ∷ rs) b h = feed_of_open rs (report now r b) (report_of_open now r b h)

report_of_closed :
    (now : ℕ) (b : CircuitBreaker)
    → Inv b
    → b.opened_at ≡ none
    → ((report now success b).failures ≡ 0)
      × ((report now success b).opened_at ≡ none)
      × ((report now failure b).failures ≡ b.failures + 1)
      × (is_some (report now failure b).opened_at ≡ leb b.failure_threshold (b.failures + 1))
unfolding report
report_of_closed now b v h = ground arith

failure_threshold-report :
    (now : ℕ) (r : Report) (b : CircuitBreaker)
    → (report now r b).failure_threshold ≡ b.failure_threshold
unfolding report
failure_threshold-report now success b = refl
failure_threshold-report now failure b = ground arith

-- A closed breaker that satisfies the invariant is open after the reports exactly when, counting
-- the failures that it holds already, as many of them as its threshold came in a row somewhere
-- among the reports.
pub feed-trips :
    (rs : List (ℕ × Report)) (b : CircuitBreaker)
    → Inv b
    → b.opened_at ≡ none
    → is_some (feed rs b).opened_at ≡ tripped b.failure_threshold b.failures (reports rs)
unfolding feed
feed-trips [] b v h = ground arith
feed-trips ((now, success) ∷ rs) b v h = ground (
  arith,
  report_of_closed now b v h,
  failure_threshold-report now success b,
  feed-trips rs (report now success b) (report-Inv now success b v),
)
feed-trips ((now, failure) ∷ rs) b v h = ground (
  arith,
  report_of_closed now b v h,
  failure_threshold-report now failure b,
  feed-trips rs (report now failure b) (report-Inv now failure b v),
  feed_of_open rs (report now failure b),
)

allow_late :
    (now t : ℕ) (b : CircuitBreaker)
    → b.opened_at ≡ some t
    → b.half_open_after ≤ now - t
    → allow now b ≡ (record b { opened_at = none; failures = 0 }, true)
unfolding allow
allow_late now t b h late = ground arith

-- When its timeout has passed, an open breaker that satisfies the invariant admits a call, and is
-- then open after the reports exactly when as many failures as its threshold came in a row among
-- them, counted from zero: a trial that fails does not open it again by itself, unless the
-- threshold is 1.
pub trial_starts_afresh :
    (now t : ℕ) (rs : List (ℕ × Report)) (b : CircuitBreaker)
    → Inv b
    → b.opened_at ≡ some t
    → b.half_open_after ≤ now - t
    → ((allow now b).1 ≡ true)
      × (is_some (feed rs (allow now b).0).opened_at ≡ tripped b.failure_threshold 0 (reports rs))
trial_starts_afresh now t rs b v h late =
    let fresh : CircuitBreaker = record b { opened_at = none; failures = 0 } in
    rw (allow_late now t b h late) (refl, feed-trips rs fresh (ground arith) refl)
