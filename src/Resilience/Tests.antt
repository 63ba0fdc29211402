-- ===== src/Resilience/Tests.antt =====
-- Runs of the breaker and of the retry loop of libs/rust/core/src/resilience.rs.
use swarm_intelligence_netwo.Prelude.{
  ℕ, ◌*◌, ◌/◌, ◌^◌, String, ◌≡◌, refl, true, false, Option, none, some, List, [], ◌∷◌, map, arith,
  ltb, if◌then◌else◌, string_eq, nat_eq, pair_eq,
}
use swarm_intelligence_netwo.Resilience.Streak.{Report, failure}
use swarm_intelligence_netwo.Resilience.Breaker.{
  opened, CircuitBreaker, new, admit, report, begin, end, here, next,
}
use swarm_intelligence_netwo.Resilience.Breaker.Invariant.{Inv, new-Inv, Reach-Inv}
use swarm_intelligence_netwo.Resilience.Breaker.Trip.{feed, is_open, feed-tripped}
use swarm_intelligence_netwo.Resilience.Breaker.Recovery.{exec_all, exec_all-recovers, good}
use swarm_intelligence_netwo.Resilience.Retry.{
  Sources, AreDocumented, RetryConfig, delay_after, retry_async, jittered, Outcome, done, panic,
}
use swarm_intelligence_netwo.Resilience.Retry
use swarm_intelligence_netwo.Resilience.Retry.Laws.{
  Explains, retry_async-Ends, IsDelay, delay_after-IsDelay,
}

abbrev breaker : CircuitBreaker
breaker = new 2 5 1

breaker-Inv : Inv breaker
breaker-Inv = new-Inv 2 5 1 (omega arith) (omega arith) (omega arith) (omega arith)

Reach-Inv_example : Inv (report 3 failure (admit 1 breaker).0)
Reach-Inv_example = Reach-Inv breaker-Inv (next (next here (begin 1)) (end 3 failure))

abbrev two_failures : List (ℕ × Report)
two_failures = (1, failure) ∷ (2, failure) ∷ []

feed-tripped_example : is_open (feed two_failures breaker).state ≡ true
unfolding new
feed-tripped_example = feed-tripped two_failures breaker breaker-Inv refl

abbrev open_breaker : CircuitBreaker
open_breaker = record breaker { state = opened 10; failures = 2 }

open_breaker-Inv : Inv open_breaker
unfolding new
open_breaker-Inv = ground arith

-- `test_circuit_half_open_to_closed`
exec_all-recovers_example :
    (exec_all (map (good {T = ℕ} String) ((15, 16, 0) ∷ [])) open_breaker).0 ≡ breaker
unfolding new
exec_all-recovers_example =
    exec_all-recovers String 10 15 16 0 [] open_breaker open_breaker-Inv refl (omega arith) refl

-- Whole factors, and a product of more than 2^64 seconds is a panic.
abbrev scaled : ℕ → ℕ → Option ℕ
scaled base n = if ltb (base * 2 ^ n) (2 ^ 64 * 10 ^ 9) then some (base * 2 ^ n) else none

abbrev plain : Sources
plain = record { scale = scaled; jitter_ms = λ d. d / 4; draw = λ n j. j }

plain-AreDocumented : AreDocumented plain
plain-AreDocumented = record { jitter-le = λ d h. omega arith; draw-le = λ n j h. omega arith }

abbrev settings : RetryConfig
settings = record {
  max_retries = 3;
  base_delay = 1_000_000;
  max_delay = 10_000_000;
  jitters = false;
}

abbrev third_time : ℕ → Retry.Result ℕ String
third_time attempt = if ltb attempt 2 then Retry.err "fail" else Retry.ok 42

-- `test_retry_eventual_success`
eventual_success :
    retry_async plain settings third_time ≡ some (done (Retry.ok 42), 1_000_000 ∷ 2_000_000 ∷ [])
unfolding retry_async delay_after
eventual_success = refl

-- With the base delay of the default, the delay after attempt 69 panics.
abbrev many : RetryConfig
many = record {
  max_retries = 100;
  base_delay = 50_000_000;
  max_delay = 1_500_000_000;
  jitters = false;
}

delay_panics : delay_after plain many 69 ≡ none
unfolding delay_after
delay_panics = refl

delay_holds : delay_after plain many 68 ≡ some 1_500_000_000
unfolding delay_after
delay_holds = refl

retry_async-Ends_example :
    (outcome : Outcome ℕ String) × (sleeps : List ℕ) × (retry_async plain settings third_time
      ≡ some (outcome, sleeps))
    × Explains plain settings third_time 0 outcome sleeps
retry_async-Ends_example = retry_async-Ends plain settings third_time

delay_after-IsDelay_example :
    IsDelay 10_000_000 (plain.scale settings.base_delay 9) (delay_after plain settings 9)
delay_after-IsDelay_example = delay_after-IsDelay plain settings 9 plain-AreDocumented (omega arith)
