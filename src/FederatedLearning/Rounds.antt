-- ===== src/FederatedLearning/Rounds.antt =====
-- libs/rust/core/src/federated_learning.rs: the rounds of a coordinator.
use swarm_intelligence_netwo.Prelude.{
  ℕ, suc, ◌+◌, ◌^◌, ◌≤◌, ◌<◌, min, ◌≡◌, refl, sym, ◌⊎◌, inl, inr, Option, none, some, List, [], ◌∷◌,
  ◌++◌, arith, ltb, ◌==◌, string_eq, nat_eq, pair_eq, Bool-cases, u64, length, All, All-append,
}
use swarm_intelligence_netwo.Float.{Float}
use swarm_intelligence_netwo.FederatedLearning.{
  AggregationMethod, new, ModelGradient, GlobalModel, Coordinator, Submission, accepted,
  layer_mismatch, Aggregation, too_few, aggregated, panicked, submit_gradient, checked_push, pushed,
  aggregate, layers,
}
use swarm_intelligence_netwo.FederatedLearning.Shapes.{add_zero, sizes, Shaped, fed_avg-some}

pub data Event (F : Type 0) : Type 0 where
  submits : ModelGradient F → Event F
  aggregates : ℕ → Event F

abbrev after_submission : {F : Type 0} → Submission F → Coordinator F
after_submission (accepted c) = c
after_submission (layer_mismatch c) = c

abbrev after_aggregation :
    {F : Type 0} → Aggregation F → Option (Coordinator F × List (GlobalModel F))
after_aggregation (too_few c) = some (c, [])
after_aggregation (aggregated c model) = some (c, model ∷ [])
after_aggregation panicked = none

abbrev then_models :
    {F : Type 0}
    → List (GlobalModel F)
    → Option (Coordinator F × List (GlobalModel F))
    → Option (Coordinator F × List (GlobalModel F))
then_models models none = none
then_models models (some (c, later)) = some (c, models ++ later)

module _ {F : Type 0} ⦃f : Float F⦄ where
  -- The coordinator and the models after the events; `none` is a panic.
  unfoldable pub run :
      List (Event F) → Coordinator F → Option (Coordinator F × List (GlobalModel F))
  run [] c = some (c, [])
  run (submits g ∷ events) c = run events (after_submission (submit_gradient g c))
  run (aggregates now ∷ events) c = elim (after_aggregation (aggregate now c)) [
    | none ↦ none
    | some (c', models) ↦ then_models models (run events c')
  ]

  -- Every gradient has the shape.
  abbrev pub AllShaped : List ℕ → List (Event F) → Type 0
  AllShaped shape [] = Unit
  AllShaped shape (submits g ∷ events) = Shaped shape g × AllShaped shape events
  AllShaped shape (aggregates now ∷ events) = AllShaped shape events

  -- The models have the shape, and their versions count on from `round`.
  abbrev pub Versions : List ℕ → ℕ → List (GlobalModel F) → Type 0
  Versions shape round [] = Unit
  Versions shape round (m ∷ models) =
      (m.version ≡ suc round) × (sizes m.weights ≡ shape) × Versions shape (suc round) models

  record Fits (shape : List ℕ) (min : ℕ) (round : ℕ) (c : Coordinator F) : Type 0 where
    shaped : All (Shaped shape) c.gradient_buffer
    some_participants : c.min_participants ≡ min
    counted : c.round ≡ round

  Fits-at :
      {shape : List ℕ} {min round : ℕ} {c c' : Coordinator F}
      → c ≡ c'
      → Fits shape min round c
      → Fits shape min round c'
  Fits-at e fits = rw (sym e) fits

  submission-cases :
      (g : ModelGradient F) (c : Coordinator F) (buffer : List (ModelGradient F))
      → (after_submission (checked_push g c buffer) ≡ c)
        ⊎ (after_submission (checked_push g c buffer) ≡ pushed g c)
  submission-cases g c [] = inr refl
  submission-cases g c (first ∷ gs) = elim (Bool-cases (layers g == layers first)) [
    | inl same ↦ inr (rw same refl)
    | inr other ↦ inl (rw other refl)
  ]

  submit-Fits :
      (shape : List ℕ) (min round : ℕ) (g : ModelGradient F) (c : Coordinator F)
      → Shaped shape g
      → Fits shape min round c
      → Fits shape min round (after_submission (submit_gradient g c))
  unfolding submit_gradient
  submit-Fits shape min round g c s fits = elim (submission-cases g c c.gradient_buffer) [
    | inl kept ↦ Fits-at (sym kept) fits
    | inr grown ↦ Fits-at (sym grown) (record {
      shaped = All-append (Shaped shape) c.gradient_buffer (g ∷ []) fits.shaped (s, tt);
      some_participants = fits.some_participants;
      counted = fits.counted;
    })
  ]

  Fits-round :
      {shape : List ℕ} {min m n : ℕ} {c : Coordinator F}
      → m ≡ n
      → Fits shape min m c
      → Fits shape min n c
  Fits-round e fits = rw (sym e) fits

  aggregate-Fits :
      (shape : List ℕ) (min round now : ℕ) (c : Coordinator F)
      → 0 < min
      → suc round < 2 ^ 64
      → Fits shape min round c
      → (c' : Coordinator F) × (models : List (GlobalModel F)) × (after_aggregation
            (aggregate now c)
          ≡ some (c', models))
        × Versions shape round models
        × Fits shape min (round + length models) c'
        × (length models ≤ 1)
  unfolding aggregate
  aggregate-Fits shape min round now c positive room fits =
      let few = ltb (length c.gradient_buffer) c.min_participants in
      elim (Bool-cases few) [
        | inl yes_few ↦ (c, [], rw yes_few refl, tt, Fits-round (add_zero round) fits, omega arith)
        | inr enough ↦
            let some_gradient : 0 < length c.gradient_buffer =
              ground (arith, enough, positive, fits.some_participants) in
            let (weights, e, same) =
              fed_avg-some shape c.gradient_buffer some_gradient fits.shaped in
            let version = u64 (c.round + 1) in
            let counted : version ≡ suc round = omega (arith, fits.counted, room) in
            (
              record c { round = version; gradient_buffer = [] },
              record { version = version; weights = weights; updated_at = now } ∷ [],
              rw (enough, e) refl,
              (counted, same, tt),
              record {
                shaped = tt;
                some_participants = fits.some_participants;
                counted = omega (arith, counted);
              },
              omega arith,
            )
      ]

  Versions-at :
      (shape : List ℕ) {m n : ℕ} (ys : List (GlobalModel F))
      → m ≡ n
      → Versions shape m ys
      → Versions shape n ys
  Versions-at shape ys e v = rw (sym e) v

  Versions-append :
      (shape : List ℕ) (round : ℕ) (xs ys : List (GlobalModel F))
      → Versions shape round xs
      → Versions shape (round + length xs) ys
      → Versions shape round (xs ++ ys)
  Versions-append shape round [] ys v w = Versions-at shape ys (omega arith) w
  Versions-append shape round (m ∷ xs) ys (e, s, v) w =
      (e, s, Versions-append shape (suc round) xs ys v (Versions-at shape ys (omega arith) w))

  run-Fits :
      (shape : List ℕ) (min round : ℕ) (events : List (Event F)) (c : Coordinator F)
      → 0 < min
      → round + length events < 2 ^ 64
      → AllShaped shape events
      → Fits shape min round c
      → (c' : Coordinator F) × (models : List (GlobalModel F)) × (run events c ≡ some (c', models))
        × Versions shape round models
  unfolding run
  run-Fits shape min round [] c positive room shaped fits = (c, [], refl, tt)
  run-Fits shape min round (submits g ∷ events) c positive room (s, shaped) fits =
      run-Fits shape min round events (after_submission (submit_gradient g c)) positive
        (omega arith) shaped (submit-Fits shape min round g c s fits)
  run-Fits shape min round (aggregates now ∷ events) c positive room shaped fits =
      let (c1, models, e, v, fits1, few) =
        aggregate-Fits shape min round now c positive (omega arith) fits in
      let (c2, later, e', w) =
        run-Fits shape min (round + length models) events c1 positive (omega arith) shaped fits1 in
      (c2, models ++ later, rw (e, run, e') refl, Versions-append shape round models later v w)

  -- Gradients of one shape are submitted to a new coordinator that asks for one participant at least,
  -- and aggregations are asked for in between. No call panics; each model that comes out has the shape
  -- of the gradients, and the versions of the models are 1, 2, 3 and so on.
  pub run-Versions :
      (method : AggregationMethod) (min : ℕ) (shape : List ℕ) (events : List (Event F))
      → 0 < min
      → length events < 2 ^ 64
      → AllShaped shape events
      → (c : Coordinator F) × (models : List (GlobalModel F)) × (run events (new method min)
          ≡ some (c, models))
        × Versions shape 0 models
  unfolding new
  run-Versions method min shape events positive room shaped =
      run-Fits shape min 0 events (new method min) positive (omega arith) shaped
        (record { shaped = tt; some_participants = refl; counted = refl })
