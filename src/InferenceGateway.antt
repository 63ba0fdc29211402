-- ===== src/InferenceGateway.antt =====
-- services/inference-gateway/src/main.rs: models, inference and its cache. `F` stands for `f32`,
-- which `Printer` prints; names and cache keys are the bytes of their text. Handlers run one at a time.
pub mod Keys
pub mod Cache
mod Tests
use swarm_intelligence_netwo.Prelude.{
  Distinct-snoc, all_recent, recent, length-recent, recent-recent, recent-append, make_room-push,
  push-make_room, ℕ, zero, suc, ◌+◌, ◌-◌, ◌*◌, ◌/◌, ◌%◌, ◌^◌, ◌≤◌, ◌<◌, min, max, String, ◌≡◌, refl,
  sym, ap, ◌∙◌, ◌≢◌, ◌↔◌, ◌⊎◌, inl, inr, Bool, true, false, not, ◌&&◌, ◌||◌, Option, none, some,
  List, [], ◌∷◌, ◌++◌, map, arith, ltb, leb, nat_beq, if◌then◌else◌, nat_beq_iff, Eq, ◌==◌,
  string_eq, nat_eq, pair_beq, pair_beq_iff, pair_eq, Bool-cases, Option-cases, some-injective,
  none-some, is_some, u64, u32, u8, u64_id, contains, insert, Distinct, Subset, equal_refl,
  contains-insert, contains-insert_self, length-insert, Distinct-insert, insert_of_contains,
  contains-append, contains-retain, Distinct-retain, length_mono-Subset, length-overlap, length,
  get_elem?, take, drop, replicate, retain, All, length-append, length-replicate, length-drop,
  length-take, take-append-drop, length-retain-le, All-append, length-map, Map, lookup, remove, put,
  lookup-remove, lookup-put,
}
use swarm_intelligence_netwo.Text.{Text, text_eq, colon}
use swarm_intelligence_netwo.Float.{Float}

pub record LoadedModel : Type 0 where
  pub name : Text
  pub version : Text
  pub model_data : List ℕ
  pub input_shape : List ℕ
  pub output_shape : List ℕ
  pub quantized : Bool

-- What the code asks of `f32` besides arithmetic: its form under `{:?}`, and whether it is NaN.
pub record Printer (F : Type 0) : Type 0 where
  pub debug : F → Text
  pub is_nan : F → Bool

module _ {F : Type 0} ⦃printer : Printer F⦄ where
  -- The elements after the first, and the end of the list.
  abbrev pub debug_rest : List F → Text
  debug_rest [] = b']' ∷ []
  debug_rest (x ∷ xs) = b',' ∷ b' ' ∷ printer.debug x ++ debug_rest xs

  -- `{:?}` of a `Vec`
  abbrev pub debug_list : List F → Text
  debug_list [] = b'[' ∷ b']' ∷ []
  debug_list (x ∷ xs) = b'[' ∷ printer.debug x ++ debug_rest xs

  -- `format!("{}:{:?}", model_name, input)`
  unfoldable pub cache_key : Text → List F → Text
  cache_key name input = name ++ colon ∷ debug_list input

pub record InferenceGateway (F : Type 0) : Type 0 where
  pub models : Map Text LoadedModel
  pub cache : Map Text (List F)

pub record ModelInfo : Type 0 where
  pub name : Text
  pub version : Text
  pub input_shape : List ℕ
  pub output_shape : List ℕ
  pub quantized : Bool
  pub size_bytes : ℕ

abbrev pub model : Text → Text → List ℕ → LoadedModel
model name version bytes = record {
  name = name;
  version = version;
  model_data = bytes;
  input_shape = 1 ∷ 128 ∷ [];
  output_shape = 1 ∷ 10 ∷ [];
  quantized = false;
}

abbrev pub product : List ℕ → ℕ
product [] = 1
product (n ∷ ns) = n * product ns

abbrev pub info : LoadedModel → ModelInfo
info m = record {
  name = m.name;
  version = m.version;
  input_shape = m.input_shape;
  output_shape = m.output_shape;
  quantized = m.quantized;
  size_bytes = length m.model_data;
}

module _ {F : Type 0} ⦃f : Float F⦄ where
  -- The terms from index `j` on, added to `sum` one after the other.
  abbrev pub weighted : ℕ → ℕ → F → List F → F
  weighted i j sum [] = sum
  weighted i j sum (x ∷ xs) =
      weighted i (suc j) (f.add sum (f.mul x (f.mul (f.of_nat (i + j)) (f.lit 1 2)))) xs

  abbrev pub sigmoid : F → F
  sigmoid sum = f.div (f.of_nat 1) (f.add (f.of_nat 1) (f.exp (f.neg sum)))

  -- The outputs from index `i` on, `n` of them.
  abbrev pub outputs : ℕ → ℕ → List F → List F
  outputs i zero input = []
  outputs i (suc n) input = sigmoid (weighted i 0 (f.of_nat 0) input) ∷ outputs (suc i) n input

  unfoldable pub mock_inference : List F → List ℕ → List F
  mock_inference input output_shape = outputs 0 (product output_shape) input

module _ {F : Type 0} where
  unfoldable pub new : InferenceGateway F
  new = record { models = []; cache = [] }

  unfoldable pub load_model : Text → Text → List ℕ → InferenceGateway F → InferenceGateway F
  load_model name version bytes g = record g {
    models = put name (model name version bytes) g.models;
  }

  unfoldable pub quantize_model : Text → InferenceGateway F → InferenceGateway F
  quantize_model name g = elim (lookup name g.models) [
    | none ↦ g
    | some m ↦ record g { models = put name (record m { quantized = true }) g.models }
  ]

  unfoldable pub clear_cache : InferenceGateway F → InferenceGateway F
  clear_cache g = record g { cache = [] }

  unfoldable pub get_model_info : Text → InferenceGateway F → Option ModelInfo
  get_model_info name g = elim (lookup name g.models) [ none ↦ none | some m ↦ some (info m) ]

module _ {F : Type 0} ⦃f : Float F⦄ ⦃printer : Printer F⦄ where
  -- `none` is the error "Model not found".
  unfoldable pub infer : Text → List F → InferenceGateway F → InferenceGateway F × Option (List F)
  infer name input g = elim (lookup (cache_key name input) g.cache) [
    | some cached ↦ (g, some cached)
    | none ↦ elim (lookup name g.models) [
      | none ↦ (g, none)
      | some m ↦
          let output = mock_inference input m.output_shape in
          (record g { cache = put (cache_key name input) output g.cache }, some output)
    ]
  ]

  -- The first error ends the loop; what was cached before it stays.
  unfoldable pub batch_infer :
      Text → List (List F) → InferenceGateway F → InferenceGateway F × Option (List (List F))
  batch_infer name [] g = (g, some [])
  batch_infer name (input ∷ inputs) g =
      let (g', output) = infer name input g in
      let (g'', rest) = batch_infer name inputs g' in
      elim output [
        | none ↦ (g', none)
        | some o ↦ elim rest [ none ↦ (g'', none) | some os ↦ (g'', some (o ∷ os)) ]
      ]
