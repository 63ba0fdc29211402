-- ===== src/Lifecycle/Tests.antt =====
-- Runs of the bootstrap phases.
use swarm_intelligence_netwo.Prelude.{
  ℕ, ◌+◌, ◌≡◌, List, [], ◌∷◌, arith, leb, string_eq, nat_eq, pair_eq, length,
}
use swarm_intelligence_netwo.Lifecycle.{
  new, advance_all, is_ready, durations, total, last, new-advance_all,
}

abbrev times : List ℕ
times = 12 ∷ 15 ∷ 20 ∷ []

new-advance_all_example :
    let s = advance_all times (new 9 10) in
    (is_ready s ≡ leb 3 (length times))
    × (length (durations s) ≡ length times)
    × (total (durations s) + 10 ≡ last 10 times)
new-advance_all_example = new-advance_all 9 10 times (omega arith, (omega arith, (omega arith, tt)))
