-- ===== src/FederatedLearning/Tests.antt =====
-- Runs of the coordinator, with hundredths for `f32`.
use swarm_intelligence_netwo.Prelude.{
  ℕ, String, ◌≡◌, refl, some, List, [], ◌∷◌, arith, string_eq, nat_eq, pair_eq,
}
use swarm_intelligence_netwo.Float.Numbers.{numbers}
use swarm_intelligence_netwo.FederatedLearning.{
  ModelGradient, GlobalModel, Aggregation, Coordinator, new, aggregate, fed_avg, sum_layers,
  sum_layer, accumulate, fed_avg_method, panicked,
}
use swarm_intelligence_netwo.FederatedLearning.Rounds.{
  run, run-Versions, Versions, submits, aggregates, Event,
}

abbrev gradient : String → ℕ → List ℕ → ModelGradient ℕ
gradient node n row = record {
  node_id = node;
  layer_gradients = row ∷ [];
  sample_count = n;
  timestamp = 0;
}

abbrev events : List (Event ℕ)
events =
    aggregates 5
    ∷ submits (gradient "n1" 10 (10 ∷ 20 ∷ 30 ∷ []))
    ∷ submits (gradient "n2" 30 (20 ∷ 40 ∷ 60 ∷ []))
    ∷ aggregates 9
    ∷ []

-- The average of the test `fedavg_aggregates`, cut to hundredths.
average :
    fed_avg (gradient "n1" 10 (10 ∷ 20 ∷ []) ∷ gradient "n2" 30 (20 ∷ 40 ∷ []) ∷ [])
    ≡ some ((17 ∷ 35 ∷ []) ∷ [])
unfolding fed_avg sum_layers sum_layer accumulate
average = refl

-- With no participants asked for, an aggregation over an empty buffer panics.
no_participants : ◌≡◌ {A = Aggregation ℕ} (aggregate 0 (new fed_avg_method 0)) panicked
unfolding aggregate new fed_avg
no_participants = refl

run-Versions_example :
    (c : Coordinator ℕ) × (models : List (GlobalModel ℕ)) × (run events (new fed_avg_method 2)
      ≡ some (c, models))
    × Versions (3 ∷ []) 0 models
run-Versions_example =
    run-Versions fed_avg_method 2 (3 ∷ []) events (omega arith) (omega arith) (refl, (refl, tt))
