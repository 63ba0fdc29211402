-- ===== src/FederatedLearning.antt =====
-- libs/rust/core/src/federated_learning.rs: the coordinator of federated learning. `F` stands for `f32`;
-- the time that the clock gives is an argument. A panic, of an index out of range, is a value.
pub mod Shapes
pub mod Rounds
mod Tests
use swarm_intelligence_netwo.Prelude.{
  Distinct-snoc, all_recent, recent, length-recent, recent-recent, recent-append, make_room-push,
  push-make_room, ℕ, zero, suc, ◌+◌, ◌-◌, ◌*◌, ◌/◌, ◌%◌, ◌^◌, ◌≤◌, ◌<◌, min, max, String, ◌≡◌, refl,
  sym, ap, ◌∙◌, ◌≢◌, ◌↔◌, ◌⊎◌, inl, inr, Bool, true, false, not, ◌&&◌, ◌||◌, Option, none, some,
  List, [], ◌∷◌, ◌++◌, map, arith, ltb, leb, nat_beq, if◌then◌else◌, nat_beq_iff, Eq, ◌==◌,
  string_eq, nat_eq, pair_beq, pair_beq_iff, pair_eq, Bool-cases, Option-cases, some-injective,
  none-some, is_some, u64, u32, u8, u64_id, contains, insert, Distinct, Subset, equal_refl,
  contains-insert, contains-insert_self, length-insert, Distinct-insert, insert_of_contains,
  contains-append, contains-retain, Distinct-retain, length_mono-Subset, length-overlap, length,
  get_elem?, take, drop, replicate, retain, All, length-append, length-replicate, length-drop,
  length-take, take-append-drop, length-retain-le, All-append, length-map, Map, lookup, remove, put,
  lookup-remove, lookup-put,
}
use swarm_intelligence_netwo.Float.{Float}

pub record ModelGradient (F : Type 0) : Type 0 where
  pub node_id : String
  pub layer_gradients : List (List F)
  pub sample_count : ℕ
  pub timestamp : ℕ

pub record GlobalModel (F : Type 0) : Type 0 where
  pub version : ℕ
  pub weights : List (List F)
  pub updated_at : ℕ

pub data AggregationMethod : Type 0 where
  fed_avg_method : AggregationMethod
  fed_prox_method : AggregationMethod
  fed_nova_method : AggregationMethod

pub record Coordinator (F : Type 0) : Type 0 where
  pub aggregation_method : AggregationMethod
  pub min_participants : ℕ
  pub gradient_buffer : List (ModelGradient F)
  pub round : ℕ
  pub mu : F

-- `layer mismatch`, or the coordinator with the gradient in its buffer.
pub data Submission (F : Type 0) : Type 0 where
  accepted : Coordinator F → Submission F
  layer_mismatch : Coordinator F → Submission F

pub data Aggregation (F : Type 0) : Type 0 where
  too_few : Coordinator F → Aggregation F
  aggregated : Coordinator F → GlobalModel F → Aggregation F
  panicked : Aggregation F

module _ {F : Type 0} where
  abbrev pub layers : ModelGradient F → ℕ
  layers g = length g.layer_gradients

  abbrev pub pushed : ModelGradient F → Coordinator F → Coordinator F
  pushed g c = record c { gradient_buffer = c.gradient_buffer ++ g ∷ [] }

  -- The number of layers is compared with that of the first gradient in the buffer.
  abbrev pub checked_push : ModelGradient F → Coordinator F → List (ModelGradient F) → Submission F
  checked_push g c [] = accepted (pushed g c)
  checked_push g c (first ∷ gs) =
      if not (layers g == layers first) then layer_mismatch c else accepted (pushed g c)

  unfoldable pub submit_gradient : ModelGradient F → Coordinator F → Submission F
  submit_gradient g c = checked_push g c c.gradient_buffer

  abbrev pub total_from : ℕ → List (ModelGradient F) → ℕ
  total_from total [] = total
  total_from total (g ∷ gs) = total_from (u64 (total + g.sample_count)) gs

module _ {F : Type 0} ⦃f : Float F⦄ where
  unfoldable pub new : AggregationMethod → ℕ → Coordinator F
  new method min_participants = record {
    aggregation_method = method;
    min_participants = min_participants;
    gradient_buffer = [];
    round = 0;
    mu = f.lit 1 2;
  }

  abbrev pub cons_row : F → Option (List F) → Option (List F)
  cons_row x none = none
  cons_row x (some xs) = some (x ∷ xs)

  -- `layer_vec[i] += *val * w`, for each value. A value with no place panics.
  unfoldable pub accumulate : F → List F → List F → Option (List F)
  accumulate w acc [] = some acc
  accumulate w [] (v ∷ vs) = none
  accumulate w (a ∷ acc) (v ∷ vs) = cons_row (f.add a (f.mul v w)) (accumulate w acc vs)

  abbrev pub add_row : ℕ → ModelGradient F → List F → Option (List F) → Option (List F)
  add_row total g acc none = none
  add_row total g acc (some row) =
      accumulate (f.div (f.of_nat g.sample_count) (f.of_nat total)) acc row

  -- One layer of every gradient, added to `acc`.
  unfoldable pub sum_layer : ℕ → ℕ → List (ModelGradient F) → List F → Option (List F)
  sum_layer total layer [] acc = some acc
  sum_layer total layer (g ∷ gs) acc =
      elim (add_row total g acc (get_elem? g.layer_gradients layer)) [
        | none ↦ none
        | some acc' ↦ sum_layer total layer gs acc'
      ]

  abbrev pub cons_layer : Option (List F) → Option (List (List F)) → Option (List (List F))
  cons_layer none rest = none
  cons_layer (some row) none = none
  cons_layer (some row) (some rows) = some (row ∷ rows)

  -- The loop over the layers of the first gradient, whose rows give the sizes.
  unfoldable pub sum_layers :
      ℕ → ℕ → List (ModelGradient F) → List (List F) → Option (List (List F))
  sum_layers total layer gs [] = some []
  sum_layers total layer gs (row ∷ rows) =
      cons_layer (sum_layer total layer gs (replicate (length row) (f.of_nat 0)))
        (sum_layers total (suc layer) gs rows)

  unfoldable pub fed_avg : List (ModelGradient F) → Option (List (List F))
  fed_avg [] = none
  fed_avg (g ∷ gs) = sum_layers (total_from 0 (g ∷ gs)) 0 (g ∷ gs) g.layer_gradients

  -- All three methods are `fed_avg`. A panic leaves the round counted and the buffer as it is; no
  -- caller goes on after it.
  unfoldable pub aggregate : ℕ → Coordinator F → Aggregation F
  aggregate now c =
      let version = u64 (c.round + 1) in
      let done = record c { round = version; gradient_buffer = [] } in
      if ltb (length c.gradient_buffer) c.min_participants
      then too_few c
      else elim (fed_avg c.gradient_buffer) [
        | none ↦ panicked
        | some weights ↦
            aggregated done (record { version = version; weights = weights; updated_at = now })
      ]
