-- ===== src/AutoScaling/Windows.antt =====
-- libs/rust/core/src/autoscaling.rs: the history that the scaler forgets makes no difference.
use swarm_intelligence_netwo.Prelude.{
  ℕ, ◌*◌, ◌≤◌, ◌≡◌, refl, sym, ap, ◌∙◌, inl, inr, List, [], ◌∷◌, ◌++◌, string_eq, nat_eq, pair_eq,
  Bool-cases,
}
use swarm_intelligence_netwo.Float.{Float}
use swarm_intelligence_netwo.AutoScaling.{
  ScalingThresholds, ScalingDecision, scale_out, scale_in, no_action, AutoScaler, Readings, kept,
  secs, new, record_metrics, cooling, note_action, decision, evaluate,
}
use swarm_intelligence_netwo.AutoScaling.Sees.{Sees, Sees-push, decision-Sees}
use swarm_intelligence_netwo.AutoScaling.Cooldown.{
  Event, records, evaluates, Outcomes, run, evaluate-cooling, evaluate-awake,
}

-- Each evaluation reads the clock after the last cutoff.
abbrev pub Onward : {F D : Type 0} → ℕ → List (Event F D) → Type 0
Onward start [] = Unit
Onward start (records a b m ∷ events) = (start ≤ b) × Onward b events
Onward start (evaluates r ∷ events) =
    (start ≤ r.at_scale_out) × (start ≤ r.at_amount) × (start ≤ r.at_scale_in) × Onward start events

outcome-cong :
    (now : ℕ) (d d' : ScalingDecision) (xs ys : Outcomes)
    → d ≡ d'
    → xs ≡ ys
    → ◌≡◌ {A = Outcomes} ((now, d) ∷ xs) ((now, d') ∷ ys)
outcome-cong now d d' xs ys e e' = rw (e, e') refl

module _ {F D : Type 0} ⦃f : Float F⦄ where
  -- A scaler that keeps every entry.
  unfoldable pub run_keeping : List (Event F D) → AutoScaler F D → Outcomes
  run_keeping [] s = []
  run_keeping (records a b m ∷ events) s =
      run_keeping events (record s { metrics_history = s.metrics_history ++ (a, m) ∷ [] })
  run_keeping (evaluates r ∷ events) s =
      let (s', d) = evaluate r s in (r.at_action, d) ∷ run_keeping events s'

  record Alike (start : ℕ) (s s' : AutoScaler F D) : Type 0 where
    thresholds : s'.thresholds ≡ s.thresholds
    last : s'.last_scale_action ≡ s.last_scale_action
    period : s'.cooldown_period ≡ s.cooldown_period
    sees : Sees start s.metrics_history s'.metrics_history

  cooling-Alike :
      (start now : ℕ) (s s' : AutoScaler F D) → Alike start s s' → cooling now s' ≡ cooling now s
  unfolding cooling
  cooling-Alike start now s s' a = rw (a.last, a.period) refl

  note_action-Alike :
      (start now : ℕ) (d : ScalingDecision) (s s' : AutoScaler F D)
      → Alike start s s'
      → Alike start (note_action now d s) (note_action now d s')
  unfolding note_action
  note_action-Alike start now (scale_out n) s s' a = record {
    thresholds = a.thresholds;
    last = refl;
    period = a.period;
    sees = a.sees;
  }
  note_action-Alike start now (scale_in n) s s' a = record {
    thresholds = a.thresholds;
    last = refl;
    period = a.period;
    sees = a.sees;
  }
  note_action-Alike start now no_action s s' a = a

  Alike-at :
      (start now : ℕ) (d d' : ScalingDecision) (s s' : AutoScaler F D)
      → d ≡ d'
      → Alike start s s'
      → Alike start (note_action now d s) (note_action now d' s')
  Alike-at start now d d' s s' e a = rw (sym e) (note_action-Alike start now d s s' a)

  thresholds-note_action :
      (now : ℕ) (d : ScalingDecision) (s : AutoScaler F D)
      → (note_action now d s).thresholds ≡ s.thresholds
  unfolding note_action
  thresholds-note_action now (scale_out n) s = refl
  thresholds-note_action now (scale_in n) s = refl
  thresholds-note_action now no_action s = refl

  decision-Alike :
      (r : Readings) (start : ℕ) (t : ScalingThresholds F) (s s' : AutoScaler F D)
      → t.scale_out_duration ≤ kept
      → t.scale_in_duration ≤ kept
      → s.thresholds ≡ t
      → start ≤ r.at_scale_out
      → start ≤ r.at_amount
      → start ≤ r.at_scale_in
      → Alike start s s'
      → decision s.thresholds r s.metrics_history ≡ decision s'.thresholds r s'.metrics_history
  decision-Alike r start t s s' out_kept in_kept same le1 le2 le3 a =
      ap (λ (u : ScalingThresholds F). decision u r s.metrics_history) same
      ∙ decision-Sees t r start s.metrics_history s'.metrics_history out_kept in_kept le1 le2 le3
          a.sees
      ∙ ap (λ (u : ScalingThresholds F). decision u r s'.metrics_history)
          (sym (a.thresholds ∙ same))

  run-run_keeping_from :
      (t : ScalingThresholds F) (events : List (Event F D)) (start : ℕ) (s s' : AutoScaler F D)
      → t.scale_out_duration ≤ kept
      → t.scale_in_duration ≤ kept
      → s.thresholds ≡ t
      → Onward start events
      → Alike start s s'
      → (run events s).1 ≡ run_keeping events s'
  unfolding run run_keeping record_metrics
  run-run_keeping_from t [] start s s' out_kept in_kept same o a = refl
  run-run_keeping_from t (records at_push b m ∷ events) start s s' out_kept in_kept same (le, o) a =
      run-run_keeping_from t events b (record_metrics at_push b m s)
        (record s' { metrics_history = s'.metrics_history ++ (at_push, m) ∷ [] }) out_kept in_kept
        same o
        (record {
          thresholds = a.thresholds;
          last = a.last;
          period = a.period;
          sees = Sees-push start b s.metrics_history s'.metrics_history at_push m le a.sees;
        })
  run-run_keeping_from t (evaluates r ∷ events) start s s' out_kept in_kept same (le1, le2, le3, o)
        a =
      elim (Bool-cases (cooling r.at_cooldown s)) [
        | inl e ↦
            rw
              (
                evaluate-cooling r s e,
                evaluate-cooling r s' (cooling-Alike start r.at_cooldown s s' a ∙ e),
                run-run_keeping_from t events start s s' out_kept in_kept same o a,
              )
              refl
        | inr e ↦
            let d = decision s.thresholds r s.metrics_history in
            let d' = decision s'.thresholds r s'.metrics_history in
            let agree : d ≡ d' =
              decision-Alike r start t s s' out_kept in_kept same le1 le2 le3 a in
            rw
              (
                evaluate-awake r s e,
                evaluate-awake r s' (cooling-Alike start r.at_cooldown s s' a ∙ e),
              )
              (outcome-cong r.at_action d d' (run events (note_action r.at_action d s)).1
                (run_keeping events (note_action r.at_action d' s')) agree
                (run-run_keeping_from t events start (note_action r.at_action d s)
                  (note_action r.at_action d' s') out_kept in_kept
                  (thresholds-note_action r.at_action d s ∙ same) o
                  (Alike-at start r.at_action d d' s s' agree a)))
      ]

  -- The two durations of the thresholds are at most half an hour, and the clock does not go back. Then
  -- the decisions of a new scaler, which forgets the metrics older than half an hour at each entry, are
  -- those of one that keeps them all.
  pub run-run_keeping :
      (t : ScalingThresholds F) (events : List (Event F D))
      → t.scale_out_duration ≤ secs (30 * 60)
      → t.scale_in_duration ≤ secs (30 * 60)
      → Onward 0 events
      → (run events (new t)).1 ≡ run_keeping events (new t)
  unfolding new Sees
  run-run_keeping t events out_kept in_kept o =
      run-run_keeping_from t events 0 (new t) (new t) out_kept in_kept refl o
        (record { thresholds = refl; last = refl; period = refl; sees = λ now dur le short. refl })
