-- ===== src/SwarmResilience/Tests.antt =====
-- Runs of the breaker and of the retry loop of libs/rust/resilience/src/lib.rs.
use swarm_intelligence_netwo.Prelude.{
  ℕ, ◌*◌, ◌/◌, ◌^◌, String, ◌≡◌, refl, false, Option, none, some, List, [], ◌∷◌, arith, ltb,
  if◌then◌else◌, string_eq, nat_eq, pair_eq, is_some, length,
}
use swarm_intelligence_netwo.Resilience.Streak.{success, failure}
use swarm_intelligence_netwo.Resilience.Retry.{Sources, RetryConfig, Outcome, done, panic}
use swarm_intelligence_netwo.Resilience.Retry as Core
use swarm_intelligence_netwo.SwarmResilience.{retry_async, CircuitBreaker, new}
use swarm_intelligence_netwo.SwarmResilience.Retry.{EndsAlike, retry_async-agrees}
use swarm_intelligence_netwo.SwarmResilience.Trip.{Inv, new-Inv, feed, feed-trips}

abbrev third_time : ℕ → Core.Result ℕ String
third_time attempt = if ltb attempt 2 then Core.err "e" else Core.ok 42

-- `test_retry`
test_retry : retry_async third_time 5 ≡ (done (Core.ok 42), 2)
unfolding retry_async
test_retry = refl

-- No attempt at all is a panic.
no_attempts : retry_async third_time 0 ≡ (panic, 0)
unfolding retry_async
no_attempts = refl

-- Whole factors, and a product of more than 2^64 seconds is a panic.
abbrev scaled : ℕ → ℕ → Option ℕ
scaled base n = if ltb (base * 2 ^ n) (2 ^ 64 * 10 ^ 9) then some (base * 2 ^ n) else none

abbrev plain : Sources
plain = record { scale = scaled; jitter_ms = λ d. d / 4; draw = λ n j. j }

abbrev settings : RetryConfig
settings = record { max_retries = 4; base_delay = 1; max_delay = 9; jitters = false }

retry_async-agrees_example :
    (outcome : Outcome ℕ String) × (sleeps : List ℕ) × (Core.retry_async plain settings third_time
      ≡ some (outcome, sleeps))
    × EndsAlike third_time (length sleeps) outcome (retry_async third_time 5)
retry_async-agrees_example = retry_async-agrees plain settings third_time

abbrev breaker : CircuitBreaker
breaker = new 3 5

breaker-Inv : Inv breaker
breaker-Inv = new-Inv 3 5 (omega arith) (omega arith)

feed-trips_example :
    is_some (feed ((1, failure) ∷ (2, success) ∷ (3, failure) ∷ []) breaker).opened_at ≡ false
unfolding new
feed-trips_example =
    feed-trips ((1, failure) ∷ (2, success) ∷ (3, failure) ∷ []) breaker breaker-Inv refl
