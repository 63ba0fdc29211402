-- ===== src/FederatedLearning/Shapes.antt =====
-- libs/rust/core/src/federated_learning.rs: gradients of one shape.
use swarm_intelligence_netwo.Prelude.{
  ℕ, zero, suc, ◌+◌, ◌≤◌, ◌<◌, ◌≡◌, refl, sym, ap, ◌∙◌, some, List, [], ◌∷◌, arith, string_eq,
  nat_eq, pair_eq, some-injective, none-some, length, get_elem?, replicate, All, length-replicate,
}
use swarm_intelligence_netwo.Float.{Float}
use swarm_intelligence_netwo.FederatedLearning.{
  total_from, fed_avg, sum_layers, ModelGradient, accumulate, sum_layer, cons_row,
}

module _ {F : Type 0} where
  -- The sizes of the layers.
  abbrev pub sizes : List (List F) → List ℕ
  sizes [] = []
  sizes (row ∷ rows) = length row ∷ sizes rows

  abbrev pub Shaped : List ℕ → ModelGradient F → Type 0
  Shaped shape g = sizes g.layer_gradients ≡ shape

  get_elem-sizes :
      (rows : List (List F)) (i n : ℕ)
      → get_elem? (sizes rows) i ≡ some n
      → (row : List F) × (get_elem? rows i ≡ some row) × (length row ≡ n)
  get_elem-sizes [] i n h = absurd (none-some h)
  get_elem-sizes (row ∷ rows) zero n h = (row, refl, some-injective h)
  get_elem-sizes (row ∷ rows) (suc i) n h = get_elem-sizes rows i n h

pub add_zero : (k : ℕ) → k ≡ k + 0
add_zero k = omega arith

zero_add : (k : ℕ) → 0 + k ≡ k
zero_add k = omega arith

suc_add : (k i : ℕ) → suc k + i ≡ k + suc i
suc_add k i = omega arith

sizes-cons :
    {F : Type 0} (a b : List F) (xs bs : List (List F))
    → length a ≡ length b
    → sizes xs ≡ sizes bs
    → sizes (a ∷ xs) ≡ sizes (b ∷ bs)
sizes-cons a b xs bs e e' = rw (e, e') refl

module _ {F : Type 0} ⦃f : Float F⦄ where
  accumulate-some :
      (w : F) (acc vs : List F)
      → length vs ≤ length acc
      → (out : List F) × (accumulate w acc vs ≡ some out) × (length out ≡ length acc)
  unfolding accumulate
  accumulate-some w acc [] h = (acc, refl, refl)
  accumulate-some w [] (v ∷ vs) h = absurd (omega arith)
  accumulate-some w (a ∷ acc) (v ∷ vs) h =
      let (out, e, same) = accumulate-some w acc vs (omega arith) in
      (f.add a (f.mul v w) ∷ out, ap (cons_row (f.add a (f.mul v w))) e, ap suc same)

  sum_layer-some :
      (total layer n : ℕ) (shape : List ℕ) (gs : List (ModelGradient F)) (acc : List F)
      → All (Shaped shape) gs
      → get_elem? shape layer ≡ some n
      → length acc ≡ n
      → (out : List F) × (sum_layer total layer gs acc ≡ some out) × (length out ≡ n)
  unfolding sum_layer
  sum_layer-some total layer n shape [] acc shaped at_layer size = (acc, refl, size)
  sum_layer-some total layer n shape (g ∷ gs) acc (s, shaped) at_layer size =
      let here : get_elem? (sizes g.layer_gradients) layer ≡ some n =
        ap (λ (ns : List ℕ). get_elem? ns layer) s ∙ at_layer in
      let (row, found, long) = get_elem-sizes g.layer_gradients layer n here in
      let w = f.div (f.of_nat g.sample_count) (f.of_nat total) in
      let (acc', e, same) = accumulate-some w acc row (omega (arith, long, size)) in
      let (out, e', same') =
        sum_layer-some total layer n shape gs acc' shaped at_layer (same ∙ size) in
      (out, rw (found, sum_layer, e) e', same')

  sum_layers-some :
      (total k : ℕ) (shape : List ℕ) (gs : List (ModelGradient F)) (rows : List (List F))
      → All (Shaped shape) gs
      → ((i n : ℕ) → get_elem? (sizes rows) i ≡ some n → get_elem? shape (k + i) ≡ some n)
      → (out : List (List F)) × (sum_layers total k gs rows ≡ some out) × (sizes out ≡ sizes rows)
  unfolding sum_layers
  sum_layers-some total k shape gs [] shaped at_layers = ([], refl, refl)
  sum_layers-some total k shape gs (row ∷ rows) shaped at_layers =
      let n = length row in
      let zeros = replicate n (f.of_nat 0) in
      let here : get_elem? shape k ≡ some n =
        ap (λ (j : ℕ). get_elem? shape j) (add_zero k) ∙ at_layers 0 n refl in
      let (first, e, long) =
        sum_layer-some total k n shape gs zeros shaped here (length-replicate n (f.of_nat 0)) in
      let below : (i m : ℕ)
          → get_elem? (sizes rows) i ≡ some m
          → get_elem? shape (suc k + i) ≡ some m =
        λ i m h. ap (λ (j : ℕ). get_elem? shape j) (suc_add k i) ∙ at_layers (suc i) m h in
      let (rest, e', same) = sum_layers-some total (suc k) shape gs rows shaped below in
      (first ∷ rest, rw (e, e') refl, sizes-cons first row rest rows long same)

  -- Gradients of one shape, of which there is one, have an average, of that shape.
  pub fed_avg-some :
      (shape : List ℕ) (gs : List (ModelGradient F))
      → 0 < length gs
      → All (Shaped shape) gs
      → (out : List (List F)) × (fed_avg gs ≡ some out) × (sizes out ≡ shape)
  unfolding fed_avg
  fed_avg-some shape [] some_gradient shaped = absurd (omega arith)
  fed_avg-some shape (g ∷ gs) some_gradient (s, shaped) =
      let at_layers : (i n : ℕ)
          → get_elem? (sizes g.layer_gradients) i ≡ some n
          → get_elem? shape (0 + i) ≡ some n =
        λ i n h.
          ap (λ (j : ℕ). get_elem? shape j) (zero_add i)
          ∙ ap (λ (ns : List ℕ). get_elem? ns i) (sym s)
          ∙ h in
      let (out, e, same) =
        sum_layers-some (total_from 0 (g ∷ gs)) 0 shape (g ∷ gs) g.layer_gradients (s, shaped)
          at_layers in
      (out, e, same ∙ s)
