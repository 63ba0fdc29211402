-- ===== src/InferenceGateway/Keys.antt =====
-- services/inference-gateway/src/main.rs: a cache key tells the model's name and the input.
use swarm_intelligence_netwo.Prelude.{
  ℕ, ◌≡◌, refl, sym, ap, ◌∙◌, ◌≢◌, Bool, true, false, not, ◌&&◌, ◌||◌, List, [], ◌∷◌, ◌++◌, arith,
  ◌==◌, string_eq, nat_eq, pair_eq, contains, contains-append,
}
use swarm_intelligence_netwo.Text.{Text, text_eq, Without, colon}
use swarm_intelligence_netwo.InferenceGateway.{Printer, debug_rest, debug_list, cache_key}

abbrev pub ends_element : ℕ → Bool
ends_element c = c == b',' || c == b']'

-- No byte of the text ends an element of a list.
abbrev pub plain : Text → Bool
plain [] = true
plain (x ∷ xs) = not (ends_element x) && plain xs

module _ {F : Type 0} (printer : Printer F) where
  -- What is relied on of the printing of `f32` under `{:?}`: a number prints as some text of digits,
  -- letters, signs and points, and only that number prints so, unless it is NaN.
  pub record PrinterLaws : Type 0 where
    pub some_text : (x : F) → (c : ℕ) × (cs : Text) × (printer.debug x ≡ c ∷ cs)
    pub no_colon : (x : F) → Without colon (printer.debug x)
    pub no_end : (x : F) → plain (printer.debug x) ≡ true
    pub only : (x y : F) → printer.is_nan y ≡ false → printer.debug x ≡ printer.debug y → x ≡ y

  abbrev pub nan_free : List F → Bool
  nan_free [] = true
  nan_free (x ∷ xs) = not (printer.is_nan x) && nan_free xs

tail_of : {x y : ℕ} {xs ys : Text} → x ∷ xs ≡ y ∷ ys → (x ≡ y) × (xs ≡ ys)
tail_of h = (cc, cc)

contains_between : (c : ℕ) (s u : Text) → contains (s ++ c ∷ u) c ≡ true
unfolding contains
contains_between c [] u = ground arith
contains_between c (x ∷ xs) u = ground (arith, contains_between c xs u)

-- The last colon separates.
last_colon :
    (s t u v : Text)
    → Without colon u
    → Without colon v
    → s ++ colon ∷ u ≡ t ++ colon ∷ v
    → (s ≡ t) × (u ≡ v)
last_colon [] [] u v fu fv h = (refl, (tail_of h).1)
last_colon [] (y ∷ ys) u v fu fv h = absurd (
    ground
      (arith, fu, ap (λ (r : Text). contains r colon) (tail_of h).1, contains_between colon ys v))
last_colon (x ∷ xs) [] u v fu fv h = absurd (
    ground
      (arith, fv, ap (λ (r : Text). contains r colon) (tail_of h).1, contains_between colon xs u))
last_colon (x ∷ xs) (y ∷ ys) u v fu fv h =
    let (first, rest) = tail_of h in
    let (same, same') = last_colon xs ys u v fu fv rest in (rw (first, same) refl, same')

-- Two plain texts before bytes that end an element are the same.
plain_until :
    (s t u v : Text) (c d : ℕ)
    → plain s ≡ true
    → plain t ≡ true
    → ends_element c ≡ true
    → ends_element d ≡ true
    → s ++ c ∷ u ≡ t ++ d ∷ v
    → (s ≡ t) × (c ∷ u ≡ d ∷ v)
plain_until [] [] u v c d fs ft ec ed h = (refl, h)
plain_until [] (y ∷ ys) u v c d fs ft ec ed h =
    absurd (ground (arith, ft, ec, ap ends_element (tail_of h).0))
plain_until (x ∷ xs) [] u v c d fs ft ec ed h =
    absurd (ground (arith, fs, ed, ap ends_element (tail_of h).0))
plain_until (x ∷ xs) (y ∷ ys) u v c d fs ft ec ed h =
    let (first, rest) = tail_of h in
    let (same, same') =
      plain_until xs ys u v c d (ground (arith, fs)) (ground (arith, ft)) ec ed rest in
    (rw (first, same) refl, same')

module _ {F : Type 0} ⦃printer : Printer F⦄ (laws : PrinterLaws printer) where
  debug_rest-Ends :
      (xs : List F) → (c : ℕ) × (u : Text) × (ends_element c ≡ true) × (debug_rest xs ≡ c ∷ u)
  debug_rest-Ends [] = (b']', [], refl, refl)
  debug_rest-Ends (x ∷ xs) = (b',', b' ' ∷ printer.debug x ++ debug_rest xs, refl, refl)

  element_until :
      (x y : F) (xs ys : List F)
      → printer.debug x ++ debug_rest xs ≡ printer.debug y ++ debug_rest ys
      → (printer.debug x ≡ printer.debug y) × (debug_rest xs ≡ debug_rest ys)
  element_until x y xs ys h =
      let (c, u, ec, e) = debug_rest-Ends xs in
      let (d, v, ed, e') = debug_rest-Ends ys in
      let (same, rest) =
        plain_until (printer.debug x) (printer.debug y) u v c d (laws.no_end x) (laws.no_end y) ec
          ed
          (ap (λ (r : Text). printer.debug x ++ r) (sym e)
            ∙ h
            ∙ ap (λ (r : Text). printer.debug y ++ r) e') in
      (same, e ∙ rest ∙ sym e')

  debug_rest_injective :
      (xs ys : List F) → nan_free printer ys ≡ true → debug_rest xs ≡ debug_rest ys → xs ≡ ys
  debug_rest_injective [] [] free h = refl
  debug_rest_injective [] (y ∷ ys) free h = absurd (omega (arith, (tail_of h).0))
  debug_rest_injective (x ∷ xs) [] free h = absurd (omega (arith, (tail_of h).0))
  debug_rest_injective (x ∷ xs) (y ∷ ys) free h =
      let (same, rest) = element_until x y xs ys (tail_of (tail_of h).1).1 in
      rw
        (
          laws.only x y (ground (arith, free)) same,
          debug_rest_injective xs ys (ground (arith, free)) rest,
        )
        refl

  not_empty : (x : F) (xs : List F) → b']' ∷ [] ≢ printer.debug x ++ debug_rest xs
  not_empty x xs h =
      let (c, cs, e) = laws.some_text x in
      let first = (tail_of (h ∙ ap (λ (r : Text). r ++ debug_rest xs) e)).0 in
      let free : plain (c ∷ cs) ≡ true = ap plain (sym e) ∙ laws.no_end x in
      absurd (ground (arith, free, first))

  debug_list_injective :
      (xs ys : List F) → nan_free printer ys ≡ true → debug_list xs ≡ debug_list ys → xs ≡ ys
  debug_list_injective [] [] free h = refl
  debug_list_injective [] (y ∷ ys) free h = absurd (not_empty y ys (tail_of h).1)
  debug_list_injective (x ∷ xs) [] free h = absurd (not_empty x xs (sym (tail_of h).1))
  debug_list_injective (x ∷ xs) (y ∷ ys) free h =
      let (same, rest) = element_until x y xs ys (tail_of h).1 in
      rw
        (
          laws.only x y (ground (arith, free)) same,
          debug_rest_injective xs ys (ground (arith, free)) rest,
        )
        refl

  debug_rest-Without : (xs : List F) → Without colon (debug_rest xs)
  unfolding contains
  debug_rest-Without [] = refl
  debug_rest-Without (x ∷ xs) = ground (
    arith,
    contains-append (printer.debug x) (debug_rest xs) colon,
    laws.no_colon x,
    debug_rest-Without xs,
  )

  debug_list-Without : (xs : List F) → Without colon (debug_list xs)
  unfolding contains
  debug_list-Without [] = refl
  debug_list-Without (x ∷ xs) = ground (
    arith,
    contains-append (printer.debug x) (debug_rest xs) colon,
    laws.no_colon x,
    debug_rest-Without xs,
  )

  -- A key that is the key of an input without NaN has its name and its input.
  pub cache_key_injective :
      (name name' : Text) (input input' : List F)
      → nan_free printer input' ≡ true
      → cache_key name input ≡ cache_key name' input'
      → (name ≡ name') × (input ≡ input')
  unfolding cache_key
  cache_key_injective name name' input input' free h =
      let (same, rest) =
        last_colon name name' (debug_list input) (debug_list input') (debug_list-Without input)
          (debug_list-Without input') h in
      (same, debug_list_injective input input' free rest)
