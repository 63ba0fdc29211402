-- ===== src/InferenceGateway/Tests.antt =====
-- Runs of the inference gateway, with numbers in place of `f32`.
use swarm_intelligence_netwo.Prelude.{
  ℕ, zero, suc, ◌≡◌, refl, ap, true, false, none, some, List, [], ◌∷◌, arith, if◌then◌else◌,
  string_eq, nat_eq, pair_eq, contains, length,
}
use swarm_intelligence_netwo.Float.Numbers.{numbers}
use swarm_intelligence_netwo.Text.{Text, text_eq, Without, colon}
use swarm_intelligence_netwo.InferenceGateway.Keys.{PrinterLaws, plain}
use swarm_intelligence_netwo.InferenceGateway.{Printer, cache_key, infer, new}
use swarm_intelligence_netwo.InferenceGateway.Cache.{
  Call, calls, loads, infers, loaded, answer, infer-calls,
}

-- A number prints as a nought after as many ones.
abbrev strokes : ℕ → Text
strokes zero = b'0' ∷ []
strokes (suc n) = b'1' ∷ strokes n

instance abbrev printer : Printer ℕ
printer = record { debug = strokes; is_nan = λ n. false }

some_stroke : (n : ℕ) → (c : ℕ) × (cs : Text) × (strokes n ≡ c ∷ cs)
some_stroke zero = (b'0', [], refl)
some_stroke (suc n) = (b'1', strokes n, refl)

strokes-Without : (n : ℕ) → Without colon (strokes n)
unfolding contains
strokes-Without zero = refl
strokes-Without (suc n) = ground (arith, strokes-Without n)

strokes-plain : (n : ℕ) → plain (strokes n) ≡ true
strokes-plain zero = refl
strokes-plain (suc n) = strokes-plain n

length_of-strokes : (n : ℕ) → length (strokes n) ≡ suc n
length_of-strokes zero = refl
length_of-strokes (suc n) = ap suc (length_of-strokes n)

strokes-only : (m n : ℕ) → false ≡ false → strokes m ≡ strokes n → m ≡ n
strokes-only m n number h = omega (arith, length_of-strokes m, length_of-strokes n, ap length h)

abbrev printer_laws : PrinterLaws printer
printer_laws = record {
  some_text = some_stroke;
  no_colon = strokes-Without;
  no_end = strokes-plain;
  only = strokes-only;
}

abbrev m : Text
m = b'm' ∷ []

-- The key of a model "m" and the input 1, 0.
key_of_two :
    cache_key {F = ℕ} m (1 ∷ 0 ∷ [])
    ≡ b'm' ∷ b':' ∷ b'[' ∷ b'1' ∷ b'0' ∷ b',' ∷ b' ' ∷ b'0' ∷ b']' ∷ []
unfolding cache_key
key_of_two = refl

abbrev history : List (Call ℕ)
history = loads m (b'1' ∷ []) (0 ∷ []) ∷ infers m (5 ∷ []) ∷ loads m (b'2' ∷ []) (1 ∷ []) ∷ []

infer-calls_example :
    let g = calls history new in
    (infer m (5 ∷ []) g).1 ≡ (if loaded m g then some (answer (5 ∷ [])) else none)
infer-calls_example = infer-calls printer_laws history m (5 ∷ []) refl
