-- ===== src/Reputation/Tests.antt =====
-- Runs of the reputation service, with hundredths for `f64`.
use swarm_intelligence_netwo.Prelude.{
  ℕ, ◌≡◌, refl, true, some, List, [], ◌∷◌, arith, string_eq, nat_eq, pair_eq,
}
use swarm_intelligence_netwo.Float.{OrderLaws}
use swarm_intelligence_netwo.Float.Numbers.{numbers}
use swarm_intelligence_netwo.Reputation.{ReputationConfig, ReputationService, Readings, new, get}
use swarm_intelligence_netwo.Reputation.Bounds.{Op, rewards, penalizes, run, Shown, run-Shown}

abbrev laws : OrderLaws numbers
laws = record { lt_irrefl = λ x. ground arith; not_lt_of_le = λ x y h. ground (arith, h) }

abbrev cfg : ReputationConfig ℕ
cfg = record {
  half_life_secs = 3600;
  min_score = 0;
  max_score = 100000;
  penalty = 5000;
  reward = 1000;
}

abbrev at_once : Readings
at_once = record { at_insert = 0; at_decay = 0; at_update = 0 }

abbrev ops : List Op
ops = rewards "n1" at_once ∷ penalizes "n2" at_once ∷ rewards "n1" at_once ∷ []

run-Shown_example :
    (s : ReputationService ℕ) × (x : ℕ) × (run ops (new cfg) ≡ some s)
    × (get "n1" 7 s ≡ some x)
    × Shown cfg true x
run-Shown_example = run-Shown laws cfg ops "n1" 7 refl
