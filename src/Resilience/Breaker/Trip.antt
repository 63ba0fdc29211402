-- ===== src/Resilience/Breaker/Trip.antt =====
-- libs/rust/core/src/resilience.rs: a closed breaker keeps the promise of `Streak`.
use swarm_intelligence_netwo.Prelude.{
  ℕ, ◌+◌, ◌≡◌, refl, Bool, true, false, List, [], ◌∷◌, arith, nat_eq, string_eq, pair_eq,
}
use swarm_intelligence_netwo.Resilience.Streak.{Report, success, failure, tripped}
use swarm_intelligence_netwo.Resilience.Breaker.{
  BreakerState, closed, opened, CircuitBreaker, report,
}
use swarm_intelligence_netwo.Resilience.Breaker.Invariant.{Inv, report-Inv}

-- The reports of calls that were let through, in the order in which they come back.
unfoldable pub feed : List (ℕ × Report) → CircuitBreaker → CircuitBreaker
feed [] b = b
feed ((now, r) ∷ rs) b = feed rs (report now r b)

abbrev pub is_open : BreakerState → Bool
is_open (opened t) = true
is_open _ = false

abbrev pub reports : List (ℕ × Report) → List Report
reports [] = []
reports ((now, r) ∷ rs) = r ∷ reports rs

report_of_open :
    (now : ℕ) (r : Report) (b : CircuitBreaker) → is_open b.state ≡ true → report now r b ≡ b
unfolding report
report_of_open now success b h = ground arith
report_of_open now failure b h = ground arith

feed_of_open :
    (rs : List (ℕ × Report)) (b : CircuitBreaker) → is_open b.state ≡ true → feed rs b ≡ b
unfolding feed
feed_of_open [] b h = refl
feed_of_open ((now, r) ∷ rs) b h = rw (report_of_open now r b h) (feed_of_open rs b h)

-- What one report does to a closed breaker.
report_of_closed :
    (now : ℕ) (r : Report) (b : CircuitBreaker)
    → Inv b
    → b.state ≡ closed
    → (is_open (report now r b).state ≡ tripped b.failure_threshold b.failures (r ∷ []))
      × ((report now r b).failure_threshold ≡ b.failure_threshold)
      × (is_open (report now r b).state ≡ false
          → ((report now r b).state ≡ closed)
            × (tripped b.failure_threshold b.failures (r ∷ []) ≡ false))
unfolding report
report_of_closed now success b v h = ground arith
report_of_closed now failure b v h = ground arith

failures-report :
    (now : ℕ) (b : CircuitBreaker)
    → Inv b
    → b.state ≡ closed
    → ((report now success b).failures ≡ 0) × ((report now failure b).failures ≡ b.failures + 1)
unfolding report
failures-report now b v h = ground arith

-- A closed breaker that satisfies the invariant is open after the reports exactly when, counting
-- the failures that it holds already, as many of them as its threshold came in a row somewhere
-- among the reports. So a success in time prevents it, and later reports do not close it.
pub feed-tripped :
    (rs : List (ℕ × Report)) (b : CircuitBreaker)
    → Inv b
    → b.state ≡ closed
    → is_open (feed rs b).state ≡ tripped b.failure_threshold b.failures (reports rs)
unfolding feed
feed-tripped [] b v h = ground arith
feed-tripped ((now, success) ∷ rs) b v h = ground (
  arith,
  report_of_closed now success b v h,
  failures-report now b v h,
  feed-tripped rs (report now success b) (report-Inv now success b v),
)
feed-tripped ((now, failure) ∷ rs) b v h = ground (
  arith,
  report_of_closed now failure b v h,
  failures-report now b v h,
  feed-tripped rs (report now failure b) (report-Inv now failure b v),
  feed_of_open rs (report now failure b),
)
