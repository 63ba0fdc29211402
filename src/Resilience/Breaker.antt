-- ===== src/Resilience/Breaker.antt =====
-- libs/rust/core/src/resilience.rs: `CircuitBreaker`. An `Instant` is a number of nanoseconds, and
-- each reading of the clock is an argument. `exec` holds the lock before and after the call that it
-- guards and not during it, so it is two steps, `admit` and `on_success` or `on_failure`, between
-- which other calls take theirs. The two inner mutexes are only taken under the outer one.
pub mod Invariant
pub mod Trip
pub mod Recovery
use swarm_intelligence_netwo.Prelude.{
  ℕ, zero, suc, ◌+◌, ◌-◌, ◌*◌, ◌/◌, ◌%◌, ◌^◌, ◌≤◌, ◌<◌, min, max, String, ◌≡◌, refl, sym, ap, ◌∙◌,
  ◌≢◌, ◌↔◌, ◌⊎◌, inl, inr, Bool, true, false, not, ◌&&◌, ◌||◌, Option, none, some, List, [], ◌∷◌,
  ◌++◌, map, arith, ltb, leb, nat_beq, if◌then◌else◌, nat_beq_iff, Eq, ◌==◌, nat_eq, string_eq,
  pair_beq, pair_beq_iff, pair_eq, Bool-cases, Option-cases, is_some, u64, u32, u8, u64_id,
  contains, insert, Distinct, Subset, equal_refl, contains-insert, contains-insert_self,
  length-insert, Distinct-insert, insert_of_contains, contains-append, contains-retain,
  Distinct-retain, length_mono-Subset, length-overlap, length, get_elem?, take, drop, replicate,
  retain, All, length-append, length-drop, length-take, take-append-drop, length-retain-le,
  All-append, length-map, Map, lookup, remove, put, lookup-remove, lookup-put,
}
use swarm_intelligence_netwo.Resilience.Streak.{Report, success, failure}

pub data BreakerState : Type 0 where
  closed half_open : BreakerState
  opened : ℕ → BreakerState

pub record CircuitBreaker : Type 0 where
  pub state : BreakerState
  pub failures : ℕ
  pub failure_threshold : ℕ
  pub open_timeout : ℕ
  pub half_open_successes : ℕ
  pub required_half_open_successes : ℕ

unfoldable pub new : ℕ → ℕ → ℕ → CircuitBreaker
new failure_threshold open_timeout required = record {
  state = closed;
  failures = 0;
  failure_threshold = failure_threshold;
  open_timeout = open_timeout;
  half_open_successes = 0;
  required_half_open_successes = required;
}

-- The block before the call: what becomes of the breaker, and whether the call is made.
-- `opened_at.elapsed()` stops at 0, as `-` does here.
abbrev admit_in : BreakerState → ℕ → CircuitBreaker → CircuitBreaker × Bool
admit_in (opened opened_at) now b =
    if leb b.open_timeout (now - opened_at)
    then (record b { state = half_open }, true)
    else (b, false)
admit_in closed now b = (b, true)
admit_in half_open now b = (b, true)

unfoldable pub admit : ℕ → CircuitBreaker → CircuitBreaker × Bool
admit now b = admit_in b.state now b

abbrev on_success_in : BreakerState → CircuitBreaker → CircuitBreaker
on_success_in closed b = record b { failures = 0 }
on_success_in half_open b =
    let succ = u64 (b.half_open_successes + 1) in
    if leb b.required_half_open_successes succ
    then record b { state = closed; failures = 0; half_open_successes = 0 }
    else record b { half_open_successes = succ }
on_success_in (opened opened_at) b = b

unfoldable pub on_success : CircuitBreaker → CircuitBreaker
on_success b = on_success_in b.state b

abbrev on_failure_in : BreakerState → ℕ → CircuitBreaker → CircuitBreaker
on_failure_in closed now b =
    let f = u64 (b.failures + 1) in
    if leb b.failure_threshold f
    then record b { state = opened now; failures = f }
    else record b { failures = f }
on_failure_in half_open now b = record b { state = opened now; half_open_successes = 0 }
on_failure_in (opened opened_at) now b = b

unfoldable pub on_failure : ℕ → CircuitBreaker → CircuitBreaker
on_failure now b = on_failure_in b.state now b

-- The step after a call, which came back at `now`.
unfoldable pub report : ℕ → Report → CircuitBreaker → CircuitBreaker
unfolding on_success on_failure
report now success b = on_success b
report now failure b = on_failure now b

pub data Result {ℓ κ} (T : Type ℓ) (E : Type κ) : Type (ℓ ⊔ κ) where
  ok : T → Result T E
  err : E → Result T E
  circuit_open : Result T E

module _ {ℓ κ} {T : Type ℓ} {E : Type κ} where
  abbrev finish : ℕ → Result T E → CircuitBreaker → CircuitBreaker
  finish now (ok v) b = on_success b
  finish now (err e) b = on_failure now b
  finish now circuit_open b = on_failure now b

  -- `exec` with no other call in between: begun at `start`, and done at `done` with `result`, which
  -- is the operation's. `op_err("circuit open")` is the value `circuit_open`.
  unfoldable pub exec : ℕ → ℕ → Result T E → CircuitBreaker → CircuitBreaker × Result T E
  exec start done result b =
      let (b', admitted) = admit start b in
      if admitted then (finish done result b', result) else (b', circuit_open)

-- One step of one of the calls that share the breaker.
pub data Step (b : CircuitBreaker) : CircuitBreaker → Type 0 where
  begin : (now : ℕ) → Step b (admit now b).0
  end : (now : ℕ) (r : Report) → Step b (report now r b)

-- Any interleaving of such steps.
pub data Reach (b : CircuitBreaker) : CircuitBreaker → Type 0 where
  here : Reach b b
  next : {b' b'' : CircuitBreaker} → Reach b b' → Step b' b'' → Reach b b''
