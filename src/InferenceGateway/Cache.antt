-- ===== src/InferenceGateway/Cache.antt =====
-- services/inference-gateway/src/main.rs: what the cache answers.
use swarm_intelligence_netwo.Prelude.{
  ℕ, ◌≡◌, refl, sym, ap, ◌∙◌, inl, inr, Bool, true, ◌&&◌, none, some, List, [], ◌∷◌, map, arith,
  if◌then◌else◌, ◌==◌, string_eq, nat_eq, pair_eq, Bool-cases, Option-cases, some-injective,
  is_some, lookup, put, lookup-put,
}
use swarm_intelligence_netwo.Text.{Text, text_eq}
use swarm_intelligence_netwo.Float.{Float}
use swarm_intelligence_netwo.InferenceGateway.{
  LoadedModel, Printer, cache_key, InferenceGateway, model, mock_inference, new, load_model,
  quantize_model, clear_cache, infer, batch_infer,
}
use swarm_intelligence_netwo.InferenceGateway.Keys.{PrinterLaws, nan_free, cache_key_injective}

abbrev pub shape : List ℕ
shape = 1 ∷ 10 ∷ []

-- The calls that change the gateway.
pub data Call (F : Type 0) : Type 0 where
  loads : Text → Text → List ℕ → Call F
  quantizes : Text → Call F
  clears : Call F
  infers : Text → List F → Call F

module _ {F : Type 0} ⦃f : Float F⦄ ⦃printer : Printer F⦄ where
  unfoldable pub call : Call F → InferenceGateway F → InferenceGateway F
  call (loads name version bytes) g = load_model name version bytes g
  call (quantizes name) g = quantize_model name g
  call clears g = clear_cache g
  call (infers name input) g = (infer name input g).0

  unfoldable pub calls : List (Call F) → InferenceGateway F → InferenceGateway F
  calls [] g = g
  calls (c ∷ cs) g = calls cs (call c g)

  -- A model has been loaded under the name.
  abbrev pub loaded : Text → InferenceGateway F → Bool
  loaded name g = is_some (lookup name g.models)

  -- What a loaded model makes of an input.
  abbrev pub answer : List F → List F
  answer input = mock_inference input shape

  pub record Sound (g : InferenceGateway F) : Type 0 where
    pub shapes :
        (name : Text) (m : LoadedModel) → lookup name g.models ≡ some m → m.output_shape ≡ shape
    pub answers :
        (name : Text) (input out : List F)
        → nan_free printer input ≡ true
        → lookup (cache_key name input) g.cache ≡ some out
        → (out ≡ answer input) × (loaded name g ≡ true)

  abbrev pub all_nan_free : List (List F) → Bool
  all_nan_free [] = true
  all_nan_free (input ∷ inputs) = nan_free printer input && all_nan_free inputs

  new-Sound : Sound new
  unfolding new lookup
  new-Sound = record { shapes = λ name m h. cc; answers = λ name input out free h. cc }

  -- Storing a model of that shape keeps what holds.
  put-Sound :
      (name : Text) (m : LoadedModel) (g : InferenceGateway F)
      → m.output_shape ≡ shape
      → Sound g
      → Sound (record g { models = put name m g.models })
  put-Sound name m g fits v = record {
    shapes = λ name' m' h. elim (Bool-cases (name == name')) [
      | inl same ↦
          let here : lookup name' (put name m g.models) ≡ some m = rw (lookup-put, same) refl in
          rw (some-injective (sym h ∙ here)) fits
      | inr other ↦
          let there : lookup name' (put name m g.models) ≡ lookup name' g.models =
            rw (lookup-put, other) refl in
          v.shapes name' m' (sym there ∙ h)
    ];
    answers = λ name' input out free h.
        let (right, was) = v.answers name' input out free h in
        (right, rw lookup-put (ground (arith, was)));
  }

  load-Sound :
      (name version : Text) (bytes : List ℕ) (g : InferenceGateway F)
      → Sound g
      → Sound (load_model name version bytes g)
  unfolding load_model
  load-Sound name version bytes g v = put-Sound name (model name version bytes) g refl v

  quantize-Sound : (name : Text) (g : InferenceGateway F) → Sound g → Sound (quantize_model name g)
  unfolding quantize_model
  quantize-Sound name g v = elim (Option-cases (lookup name g.models)) [
    | inl unknown ↦ rw (unknown, quantize_model) v
    | inr (m, found) ↦
        rw (found, quantize_model)
          (put-Sound name (record m { quantized = true }) g (v.shapes name m found) v)
  ]

  clear-Sound : (g : InferenceGateway F) → Sound g → Sound (clear_cache g)
  unfolding clear_cache lookup
  clear-Sound g v = record { shapes = v.shapes; answers = λ name input out free h. cc }

  loaded-infer :
      (name : Text) (input : List F) (g : InferenceGateway F)
      → (infer name input g).0.models ≡ g.models
  unfolding infer
  loaded-infer name input g = elim (Option-cases (lookup (cache_key name input) g.cache)) [
    | inr (out, hit) ↦ rw (hit, infer) refl
    | inl miss ↦ elim (Option-cases (lookup name g.models)) [
      | inl unknown ↦ rw (miss, unknown, infer) refl
      | inr (m, found) ↦ rw (miss, found, infer) refl
    ]
  ]

module _ {F : Type 0} ⦃f : Float F⦄ ⦃printer : Printer F⦄ (laws : PrinterLaws printer) where
  answers-store :
      (name name' : Text) (input input' out : List F) (g : InferenceGateway F)
      → loaded name g ≡ true
      → Sound g
      → nan_free printer input' ≡ true
      → lookup (cache_key name' input') (put (cache_key name input) (answer input) g.cache)
        ≡ some out
      → (out ≡ answer input') × (loaded name' g ≡ true)
  answers-store name name' input input' out g known v free h =
      let key = cache_key name input in
      let key' = cache_key name' input' in
      elim (Bool-cases (key == key')) [
        | inl same ↦
            let here : lookup key' (put key (answer input) g.cache) ≡ some (answer input) =
              rw (lookup-put, same) refl in
            let (e, e') =
              cache_key_injective laws name name' input input' free
                ((text_eq.equal_iff key key').0 same) in
            (
              some-injective (sym h ∙ here) ∙ ap answer e',
              sym (ap (λ (n : Text). loaded n g) e) ∙ known,
            )
        | inr other ↦
            let there : lookup key' (put key (answer input) g.cache) ≡ lookup key' g.cache =
              rw (lookup-put, other) refl in
            v.answers name' input' out free (sym there ∙ h)
      ]

  store-Sound :
      (name : Text) (input : List F) (g : InferenceGateway F)
      → loaded name g ≡ true
      → Sound g
      → Sound (record g { cache = put (cache_key name input) (answer input) g.cache })
  store-Sound name input g known v = record {
    shapes = v.shapes;
    answers = λ name' input' out free h. answers-store name name' input input' out g known v free h;
  }

  infer-Sound :
      (name : Text) (input : List F) (g : InferenceGateway F)
      → Sound g
      → Sound (infer name input g).0
  unfolding infer
  infer-Sound name input g v = elim (Option-cases (lookup (cache_key name input) g.cache)) [
    | inr (out, hit) ↦ rw (hit, infer) v
    | inl miss ↦ elim (Option-cases (lookup name g.models)) [
      | inl unknown ↦ rw (miss, unknown, infer) v
      | inr (m, found) ↦
          let fits = v.shapes name m found in
          let known : loaded name g ≡ true = rw found refl in
          rw (miss, found, infer, fits) (store-Sound name input g known v)
    ]
  ]

  infer-answer :
      (name : Text) (input : List F) (g : InferenceGateway F)
      → nan_free printer input ≡ true
      → Sound g
      → (infer name input g).1 ≡ (if loaded name g then some (answer input) else none)
  unfolding infer
  infer-answer name input g free v = elim (Option-cases (lookup (cache_key name input) g.cache)) [
    | inr (out, hit) ↦
        let (right, known) = v.answers name input out free hit in
        rw (hit, infer, known) (ap some right)
    | inl miss ↦ elim (Option-cases (lookup name g.models)) [
      | inl unknown ↦ rw (miss, unknown, infer) refl
      | inr (m, found) ↦ let fits = v.shapes name m found in rw (miss, found, infer, fits) refl
    ]
  ]

  call-Sound : (c : Call F) (g : InferenceGateway F) → Sound g → Sound (call c g)
  unfolding call
  call-Sound (loads name version bytes) g v = load-Sound name version bytes g v
  call-Sound (quantizes name) g v = quantize-Sound name g v
  call-Sound clears g v = clear-Sound g v
  call-Sound (infers name input) g v = infer-Sound name input g v

  calls-Sound : (cs : List (Call F)) (g : InferenceGateway F) → Sound g → Sound (calls cs g)
  unfolding calls
  calls-Sound [] g v = v
  calls-Sound (c ∷ cs) g v = calls-Sound cs (call c g) (call-Sound c g v)

  -- After any calls on a new gateway, an inference on an input without NaN answers what the
  -- computation makes of the input, out of the cache or not, if a model has been loaded under the
  -- name, and fails otherwise; for a printing of floats in which a number that is not NaN has a text
  -- of its own, which has no colon, comma or bracket.
  pub infer-calls :
      (cs : List (Call F)) (name : Text) (input : List F)
      → nan_free printer input ≡ true
      → let g = calls cs new in
        (infer name input g).1 ≡ (if loaded name g then some (answer input) else none)
  infer-calls cs name input free =
      infer-answer name input (calls cs new) free (calls-Sound cs new new-Sound)

  batch-Sound :
      (name : Text) (inputs : List (List F)) (g : InferenceGateway F)
      → all_nan_free inputs ≡ true
      → Sound g
      → loaded name g ≡ true
      → (batch_infer name inputs g).1 ≡ some (map answer inputs)
  unfolding batch_infer
  batch-Sound name [] g free v known = refl
  batch-Sound name (input ∷ inputs) g free v known =
      let g' = (infer name input g).0 in
      let right = infer-answer name input g (ground (arith, free)) v in
      let still : loaded name g' ≡ true = rw loaded-infer known in
      let rest =
        batch-Sound name inputs g' (ground (arith, free)) (infer-Sound name input g v) still in
      rw (right, known, rest, batch_infer) refl

  -- After any calls on a new gateway, a batch of inputs without NaN under the name of a loaded model
  -- gives for each input, in order, what the computation makes of it; for such a printing of floats.
  pub batch_infer-calls :
      (cs : List (Call F)) (name : Text) (inputs : List (List F))
      → all_nan_free inputs ≡ true
      → loaded name (calls cs new) ≡ true
      → (batch_infer name inputs (calls cs new)).1 ≡ some (map answer inputs)
  batch_infer-calls cs name inputs free known =
      batch-Sound name inputs (calls cs new) free (calls-Sound cs new new-Sound) known
