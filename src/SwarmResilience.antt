-- ===== src/SwarmResilience.antt =====
-- libs/rust/resilience/src/lib.rs: the retry loop and the circuit breaker that the sensor gateway
-- uses. Counters, log lines and the error type `ResilienceError` are left out. An `Instant` is a
-- number of nanoseconds, and each reading of the clock is an argument.
pub mod Retry
pub mod Trip
mod Tests
use swarm_intelligence_netwo.Prelude.{
  Distinct-snoc, all_recent, recent, length-recent, recent-recent, recent-append, make_room-push,
  push-make_room, ℕ, zero, suc, ◌+◌, ◌-◌, ◌*◌, ◌/◌, ◌%◌, ◌^◌, ◌≤◌, ◌<◌, min, max, String, ◌≡◌, refl,
  sym, ap, ◌∙◌, ◌≢◌, ◌↔◌, ◌⊎◌, inl, inr, Bool, true, false, not, ◌&&◌, ◌||◌, Option, none, some,
  List, [], ◌∷◌, ◌++◌, map, arith, ltb, leb, nat_beq, if◌then◌else◌, nat_beq_iff, Eq, ◌==◌,
  string_eq, nat_eq, pair_beq, pair_beq_iff, pair_eq, Bool-cases, Option-cases, some-injective,
  none-some, is_some, u64, u32, u8, u64_id, contains, insert, Distinct, Subset, equal_refl,
  contains-insert, contains-insert_self, length-insert, Distinct-insert, insert_of_contains,
  contains-append, contains-retain, Distinct-retain, length_mono-Subset, length-overlap, length,
  get_elem?, take, drop, replicate, retain, All, length-append, length-replicate, length-drop,
  length-take, take-append-drop, length-retain-le, All-append, length-map, Map, lookup, remove, put,
  lookup-remove, lookup-put,
}
use swarm_intelligence_netwo.Resilience.Retry.{Result, ok, err, Outcome, done, panic}
use swarm_intelligence_netwo.Resilience.Streak.{Report, success, failure}

module _ {ℓ κ} {T : Type ℓ} {E : Type κ} where
  -- A panic is that of `last_err.unwrap()`.
  abbrev unwrap : Option E → Outcome T E
  unwrap none = panic
  unwrap (some e) = done (err e)

  -- The rounds `i` up to `i + left` of `for i in 0..attempts`. The operation is a function of the
  -- number of calls before. The result is the outcome and the number of sleeps.
  unfoldable pub retry_rounds : (ℕ → Result T E) → ℕ → ℕ → Option E → ℕ → Outcome T E × ℕ
  retry_rounds op zero i last_err sleeps = (unwrap last_err, sleeps)
  retry_rounds op (suc left) i last_err sleeps = elim (op i) [
    | ok v ↦ (done (ok v), sleeps)
    | err e ↦ retry_rounds op left (i + 1) (some e) (if ltb 0 left then sleeps + 1 else sleeps)
  ]

  unfoldable pub retry_async : (ℕ → Result T E) → ℕ → Outcome T E × ℕ
  unfolding retry_rounds
  retry_async op attempts = retry_rounds op attempts 0 none 0

-- `State`, with the two settings of `CircuitBreaker`.
pub record CircuitBreaker : Type 0 where
  pub failures : ℕ
  pub opened_at : Option ℕ
  pub half_open_after : ℕ
  pub failure_threshold : ℕ

unfoldable pub new : ℕ → ℕ → CircuitBreaker
new failure_threshold half_open_after = record {
  failures = 0;
  opened_at = none;
  half_open_after = half_open_after;
  failure_threshold = failure_threshold;
}

abbrev allow_in : Option ℕ → ℕ → CircuitBreaker → CircuitBreaker × Bool
allow_in none now b = (b, true)
allow_in (some opened) now b =
    if leb b.half_open_after (now - opened)
    then (record b { opened_at = none; failures = 0 }, true)
    else (b, false)

unfoldable pub allow : ℕ → CircuitBreaker → CircuitBreaker × Bool
allow now b = allow_in b.opened_at now b

unfoldable pub record_success : CircuitBreaker → CircuitBreaker
record_success b = record b { failures = 0 }

abbrev open_if_none : Option ℕ → ℕ → Option ℕ
open_if_none none now = some now
open_if_none (some t) now = some t

unfoldable pub record_failure : ℕ → CircuitBreaker → CircuitBreaker
record_failure now b =
    let f = u32 (b.failures + 1) in
    if leb b.failure_threshold f
    then record b { failures = f; opened_at = open_if_none b.opened_at now }
    else record b { failures = f }

unfoldable pub report : ℕ → Report → CircuitBreaker → CircuitBreaker
unfolding record_success record_failure
report now success b = record_success b
report now failure b = record_failure now b
