-- ===== src/AutoScaling/Cooldown.antt =====
-- libs/rust/core/src/autoscaling.rs: the cooldown between actions, and their amounts.
use swarm_intelligence_netwo.Prelude.{
  ℕ, ◌+◌, ◌*◌, ◌≤◌, ◌<◌, ◌≡◌, refl, ◌∙◌, inl, inr, true, false, Option, none, some, List, [], ◌∷◌,
  arith, string_eq, nat_eq, pair_eq, Bool-cases,
}
use swarm_intelligence_netwo.Float.{Float}
use swarm_intelligence_netwo.AutoScaling.{
  ResourceMetrics, ScalingThresholds, ScalingDecision, scale_out, scale_in, no_action, AutoScaler,
  Readings, History, secs, is_nil, new, record_metrics, cooling, is_recent, note_action,
  should_scale_out, should_scale_in, calculate_scale_out_amount, calculate_scale_in_amount,
  decision, evaluate,
}

pub data Event (F D : Type 0) : Type 0 where
  records : ℕ → ℕ → ResourceMetrics F D → Event F D
  evaluates : Readings → Event F D

-- What `evaluate` returned, with the reading of the clock that an action takes.
abbrev pub Outcomes : Type 0
Outcomes = List (ℕ × ScalingDecision)

abbrev pub After : ℕ → Option ℕ → ℕ → Type 0
After gap none now = Unit
After gap (some last) now = last + gap ≤ now

-- Each action comes at least `gap` after the one before, the first of them after `last`; it adds one to
-- three instances or takes one away.
abbrev pub Spaced : ℕ → Option ℕ → Outcomes → Type 0
Spaced gap last [] = Unit
Spaced gap last ((now, scale_out n) ∷ rest) =
    After gap last now × (1 ≤ n) × (n ≤ 3) × Spaced gap (some now) rest
Spaced gap last ((now, scale_in n) ∷ rest) =
    After gap last now × (n ≡ 1) × Spaced gap (some now) rest
Spaced gap last ((now, no_action) ∷ rest) = Spaced gap last rest

-- In each call the clock does not go back before the action.
abbrev pub AllForward : {F D : Type 0} → List (Event F D) → Type 0
AllForward [] = Unit
AllForward (records a b m ∷ events) = AllForward events
AllForward (evaluates r ∷ events) = (r.at_cooldown ≤ r.at_action) × AllForward events

After-later :
    (gap period : ℕ) (last : Option ℕ) (now at_action : ℕ)
    → 0 < gap
    → period ≡ gap
    → now ≤ at_action
    → is_recent now period last ≡ false
    → After gap last at_action
After-later gap period none now at_action positive same le over = tt
After-later gap period (some last) now at_action positive same le over =
    ground (arith, over, positive, le, same)

-- A decision that the code can take.
abbrev Fair : ScalingDecision → Type 0
Fair (scale_out n) = (1 ≤ n) × (n ≤ 3)
Fair (scale_in n) = n ≡ 1
Fair no_action = Unit

module _ {F D : Type 0} ⦃f : Float F⦄ where
  unfoldable pub run : List (Event F D) → AutoScaler F D → AutoScaler F D × Outcomes
  run [] s = (s, [])
  run (records a b m ∷ events) s = run events (record_metrics a b m s)
  run (evaluates r ∷ events) s =
      let (s', d) = evaluate r s in
      let (s'', later) = run events s' in (s'', (r.at_action, d) ∷ later)

  amount-bounds :
      (now : ℕ) (h : History F D)
      → (1 ≤ calculate_scale_out_amount now h) × (calculate_scale_out_amount now h ≤ 3)
  unfolding calculate_scale_out_amount
  amount-bounds now h = ground arith

  decision-Fair : (t : ScalingThresholds F) (r : Readings) (h : History F D) → Fair (decision t r h)
  unfolding decision calculate_scale_in_amount
  decision-Fair t r h = elim (Bool-cases (is_nil h)) [
    | inl e ↦ rw (e, decision) tt
    | inr e ↦ elim (Bool-cases (should_scale_out t r.at_scale_out h)) [
      | inl e' ↦ rw (e, decision, e') (amount-bounds r.at_amount h)
      | inr e' ↦ elim (Bool-cases (should_scale_in t r.at_scale_in h)) [
        | inl e'' ↦ rw (e, decision, e', e'') refl
        | inr e'' ↦ rw (e, decision, e', e'') tt
      ]
    ]
  ]

  Spaced-cons :
      (gap now : ℕ) (d : ScalingDecision) (s : AutoScaler F D) (rest : Outcomes)
      → After gap s.last_scale_action now
      → Fair d
      → Spaced gap (note_action now d s).last_scale_action rest
      → Spaced gap s.last_scale_action ((now, d) ∷ rest)
  unfolding note_action
  Spaced-cons gap now (scale_out n) s rest a (lo, hi) later = (a, lo, hi, later)
  Spaced-cons gap now (scale_in n) s rest a fair later = (a, fair, later)
  Spaced-cons gap now no_action s rest a fair later = later

  period-note_action :
      (now : ℕ) (d : ScalingDecision) (s : AutoScaler F D)
      → (note_action now d s).cooldown_period ≡ s.cooldown_period
  unfolding note_action
  period-note_action now (scale_out n) s = refl
  period-note_action now (scale_in n) s = refl
  period-note_action now no_action s = refl

  pub evaluate-cooling :
      (r : Readings) (s : AutoScaler F D)
      → cooling r.at_cooldown s ≡ true
      → evaluate r s ≡ (s, no_action)
  unfolding evaluate
  evaluate-cooling r s e = rw (e, evaluate) refl

  pub evaluate-awake :
      (r : Readings) (s : AutoScaler F D)
      → cooling r.at_cooldown s ≡ false
      → let d = decision s.thresholds r s.metrics_history in
        evaluate r s ≡ (note_action r.at_action d s, d)
  unfolding evaluate
  evaluate-awake r s e = rw (e, evaluate) refl

  run-Spaced_from :
      (events : List (Event F D)) (s : AutoScaler F D) (gap : ℕ)
      → 0 < gap
      → s.cooldown_period ≡ gap
      → AllForward events
      → Spaced gap s.last_scale_action (run events s).1
  unfolding run record_metrics cooling
  run-Spaced_from [] s gap positive same forward = tt
  run-Spaced_from (records a b m ∷ events) s gap positive same forward =
      run-Spaced_from events (record_metrics a b m s) gap positive same forward
  run-Spaced_from (evaluates r ∷ events) s gap positive same (le, forward) =
      elim (Bool-cases (cooling r.at_cooldown s)) [
        | inl e ↦ rw (evaluate-cooling r s e) (run-Spaced_from events s gap positive same forward)
        | inr e ↦
            let d = decision s.thresholds r s.metrics_history in
            let s' = note_action r.at_action d s in
            rw (evaluate-awake r s e) (
              Spaced-cons gap r.at_action d s (run events s').1
                (After-later gap s.cooldown_period s.last_scale_action r.at_cooldown r.at_action
                  positive same le e)
                (decision-Fair s.thresholds r s.metrics_history)
                (run-Spaced_from events s' gap positive (period-note_action r.at_action d s ∙ same)
                  forward))
      ]

  -- A new scaler records metrics and is evaluated, in any order, one call after another, with a clock
  -- that does not go back within a call. Any two actions are at least five minutes apart, and each
  -- adds one to three instances or takes away one.
  pub run-Spaced :
      (thresholds : ScalingThresholds F) (events : List (Event F D))
      → AllForward events
      → Spaced (secs (5 * 60)) none (run events (new thresholds)).1
  unfolding new
  run-Spaced thresholds events forward =
      run-Spaced_from events (new thresholds) (secs (5 * 60)) (omega arith) refl forward
