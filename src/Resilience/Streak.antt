-- ===== src/Resilience/Streak.antt =====
-- The promise of a circuit breaker, without its representation: it opens at the first moment when
-- as many calls as its threshold have failed in a row.
use swarm_intelligence_netwo.Prelude.{
  ℕ, ◌+◌, Bool, true, false, List, [], ◌∷◌, leb, if◌then◌else◌, nat_eq, string_eq, pair_eq,
}

-- How a call came back.
pub data Report : Type 0 where
  success failure : Report

-- Whether a row of `threshold` failures ends somewhere in the reports, `streak` failures in a row
-- having come before them.
abbrev pub tripped : ℕ → ℕ → List Report → Bool
tripped threshold streak [] = false
tripped threshold streak (success ∷ rs) = tripped threshold 0 rs
tripped threshold streak (failure ∷ rs) =
    let rest = tripped threshold (streak + 1) rs in
    if leb threshold (streak + 1) then true else rest
