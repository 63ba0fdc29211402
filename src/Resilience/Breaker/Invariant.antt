-- ===== src/Resilience/Breaker/Invariant.antt =====
-- libs/rust/core/src/resilience.rs: what holds of a breaker under any interleaving of its calls.
use swarm_intelligence_netwo.Prelude.{ℕ, ◌^◌, ◌<◌, ◌≡◌, arith, nat_eq, string_eq, pair_eq}
use swarm_intelligence_netwo.Resilience.Streak.{Report, success, failure}
use swarm_intelligence_netwo.Resilience.Breaker.{
  closed, half_open, opened, CircuitBreaker, new, admit, report, Step, begin, end, Reach, here,
  next,
}

pub record Inv (b : CircuitBreaker) : Type 0 where
  pub threshold_pos : 0 < b.failure_threshold
  pub required_pos : 0 < b.required_half_open_successes
  pub threshold_fits : b.failure_threshold < 2 ^ 64
  pub required_fits : b.required_half_open_successes < 2 ^ 64
  pub closed_below :
      b.state ≡ closed → (b.failures < b.failure_threshold) × (b.half_open_successes ≡ 0)
  pub open_no_trials : (t : ℕ) → b.state ≡ opened t → b.half_open_successes ≡ 0
  pub half_open_below : b.state ≡ half_open → b.half_open_successes < b.required_half_open_successes

pub new-Inv :
    (threshold timeout required : ℕ)
    → 0 < threshold
    → 0 < required
    → threshold < 2 ^ 64
    → required < 2 ^ 64
    → Inv (new threshold timeout required)
unfolding new
new-Inv threshold timeout required h h' f f' = ground arith

pub admit-Inv : (now : ℕ) (b : CircuitBreaker) → Inv b → Inv (admit now b).0
unfolding admit
admit-Inv now b v = grind arith

pub report-Inv : (now : ℕ) (r : Report) (b : CircuitBreaker) → Inv b → Inv (report now r b)
unfolding report
report-Inv now success b v = grind arith
report-Inv now failure b v = grind arith

Step-Inv : {b b' : CircuitBreaker} → Step b b' → Inv b → Inv b'
Step-Inv {b} (begin now) v = admit-Inv now b v
Step-Inv {b} (end now r) v = report-Inv now r b v

-- However the calls that share a breaker interleave, a breaker that satisfies the invariant goes on
-- to satisfy it: a closed one has counted fewer failures than its threshold and no trial
-- successes, an open one has no trial successes, and a half-open one fewer than it requires.
pub Reach-Inv : {b b' : CircuitBreaker} → Inv b → Reach b b' → Inv b'
Reach-Inv v here = v
Reach-Inv v (next r s) = Step-Inv s (Reach-Inv v r)
