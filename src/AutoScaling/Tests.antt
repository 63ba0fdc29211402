-- ===== src/AutoScaling/Tests.antt =====
-- Runs of the auto scaler, with hundredths for `f32` and numbers for `f64`.
use swarm_intelligence_netwo.Prelude.{
  ℕ, ◌*◌, ◌≡◌, refl, none, List, [], ◌∷◌, arith, string_eq, nat_eq, pair_eq,
}
use swarm_intelligence_netwo.Float.Numbers.{numbers}
use swarm_intelligence_netwo.AutoScaling.{
  ResourceMetrics, scale_out, no_action, Readings, secs, new, forget, record_metrics, get_recent,
  cooling, note_action, should_scale_out, decision, evaluate, calculate_scale_out_amount,
  default_thresholds,
}
use swarm_intelligence_netwo.AutoScaling.Cooldown.{
  Event, records, evaluates, run, Spaced, run-Spaced,
}
use swarm_intelligence_netwo.AutoScaling.Windows.{run_keeping, run-run_keeping}

abbrev busy : ResourceMetrics ℕ ℕ
busy = record {
  cpu_utilization = 90;
  memory_utilization = 40;
  network_throughput = 0;
  threat_volume = 0;
  timestamp = 0;
}

abbrev at : ℕ → Readings
at n = record {
  at_cooldown = secs n;
  at_scale_out = secs n;
  at_amount = secs n;
  at_scale_in = secs n;
  at_action = secs n;
}

abbrev events : List (Event ℕ ℕ)
events =
    records (secs 1) (secs 1) busy
    ∷ evaluates (at 2)
    ∷ evaluates (at 100)
    ∷ records (secs 200) (secs 200) busy
    ∷ evaluates (at 302)
    ∷ []

-- The test `scale_out_trigger`, and the cooldown after it.
outcomes :
    (run events (new default_thresholds)).1
    ≡ (secs 2, scale_out 2) ∷ (secs 100, no_action) ∷ (secs 302, scale_out 1) ∷ []
unfolding run evaluate record_metrics forget new cooling note_action decision should_scale_out
    get_recent calculate_scale_out_amount
outcomes = refl

run-Spaced_example : Spaced (secs (5 * 60)) none (run events (new default_thresholds)).1
run-Spaced_example =
    run-Spaced default_thresholds events (omega arith, (omega arith, (omega arith, tt)))

run-run_keeping_example :
    (run events (new default_thresholds)).1 ≡ run_keeping events (new default_thresholds)
run-run_keeping_example = run-run_keeping default_thresholds events (omega arith) (omega arith) (
  omega arith,
  (
    omega arith,
    omega arith,
    omega arith,
    (
      omega arith,
      omega arith,
      omega arith,
      (omega arith, (omega arith, omega arith, omega arith, tt)),
    ),
  ),
)
