-- ===== src/Prelude/Sets.antt =====
-- `HashSet`: a list of distinct keys, whose order no operation of the program shows.
use Prim.Native.Nat.{suc, ◌+◌, ◌≤◌}
use mathlib.Core.Path.{◌≡◌, refl}
use mathlib.Core.Bool.{Bool, true, false, ◌||◌, not}
use mathlib.Core.List.{List, [], ◌∷◌, ◌++◌}
use native.Mathlib.Omega.{arith}
use swarm_intelligence_netwo.Prelude.Tests.{if◌then◌else◌, Eq, ◌==◌}
use swarm_intelligence_netwo.Prelude.Lists.{length, retain, length-append}

module _ {ℓ} {A : Type ℓ} ⦃e : Eq A⦄ where
  unfoldable pub contains : List A → A → Bool
  contains [] a = false
  contains (x ∷ xs) a = a == x || contains xs a

  unfoldable pub insert : A → List A → List A
  unfolding contains
  insert a xs = if contains xs a then xs else a ∷ xs

  abbrev pub Distinct : List A → Type 0
  Distinct [] = Unit
  Distinct (x ∷ xs) = (contains xs x ≡ false) × Distinct xs

  -- Every member of `xs` is a member of `ys`.
  abbrev pub Subset : List A → List A → Type ℓ
  Subset xs ys = (a : A) → contains xs a ≡ true → contains ys a ≡ true

  pub equal_refl : (a : A) → (a == a) ≡ true
  equal_refl a = (e.equal_iff a a).1 refl

  pub contains-insert :
      (a b : A) (xs : List A) → contains (insert a xs) b ≡ (b == a || contains xs b)
  unfolding insert
  contains-insert a b xs = ground (arith, e.equal_iff b a)

  pub contains-insert_self : (a : A) (xs : List A) → contains (insert a xs) a ≡ true
  contains-insert_self a xs = rw contains-insert (ground (arith, equal_refl a))

  pub length-insert :
      (a : A) (xs : List A)
      → length (insert a xs) ≡ (if contains xs a then length xs else suc (length xs))
  unfolding insert
  length-insert a xs = ground arith

  pub Distinct-insert : (a : A) (xs : List A) → Distinct xs → Distinct (insert a xs)
  unfolding insert
  Distinct-insert a xs d = ground arith

  pub insert_of_contains : (a : A) (xs : List A) → contains xs a ≡ true → insert a xs ≡ xs
  unfolding insert
  insert_of_contains a xs h = ground arith

  pub contains-append :
      (xs ys : List A) (a : A) → contains (xs ++ ys) a ≡ (contains xs a || contains ys a)
  unfolding contains
  contains-append [] ys a = refl
  contains-append (x ∷ xs) ys a = ground (arith, contains-append xs ys a)

  pub contains-retain :
      (keep : A → Bool) (xs : List A) (a : A)
      → contains (retain keep xs) a ≡ (if contains xs a then keep a else false)
  unfolding contains
  contains-retain keep [] a = refl
  contains-retain keep (x ∷ xs) a = ground (arith, contains-retain keep xs a, e.equal_iff a x)

  pub Distinct-retain : (keep : A → Bool) (xs : List A) → Distinct xs → Distinct (retain keep xs)
  Distinct-retain keep [] d = tt
  Distinct-retain keep (x ∷ xs) (d, ds) =
      ground (arith, Distinct-retain keep xs ds, contains-retain keep xs x)

  -- `Vec::push` of an element that is not there.
  pub Distinct-snoc :
      (a : A) (xs : List A) → Distinct xs → contains xs a ≡ false → Distinct (xs ++ a ∷ [])
  unfolding contains
  Distinct-snoc a [] d h = (refl, tt)
  Distinct-snoc a (x ∷ xs) (d, ds) h =
      let apart : (a == x) ≡ false = ground arith in
      let still : contains xs a ≡ false = ground arith in
      (
        ground (arith, contains-append xs (a ∷ []) x, e.equal_iff x a, e.equal_iff a x),
        Distinct-snoc a xs ds still,
      )

  erase : A → List A → List A
  erase a [] = []
  erase a (x ∷ xs) = if x == a then xs else x ∷ erase a xs

  length-erase :
      (a : A) (xs : List A) → contains xs a ≡ true → suc (length (erase a xs)) ≡ length xs
  unfolding erase contains
  length-erase a [] h = ground arith
  length-erase a (x ∷ xs) h = ground (arith, length-erase a xs, e.equal_iff x a, e.equal_iff a x)

  contains-erase_ne :
      (a b : A) (xs : List A) → (b == a) ≡ false → contains (erase a xs) b ≡ contains xs b
  unfolding erase contains
  contains-erase_ne a b [] h = refl
  contains-erase_ne a b (x ∷ xs) h =
      ground (arith, contains-erase_ne a b xs, e.equal_iff x a, e.equal_iff b a, e.equal_iff b x)

  -- A set inside a list is no longer than the list.
  pub length_mono-Subset : (xs ys : List A) → Distinct xs → Subset xs ys → length xs ≤ length ys
  unfolding contains
  length_mono-Subset [] ys d s = omega arith
  length_mono-Subset (x ∷ xs) ys (d, ds) s =
      let held : contains ys x ≡ true = s x (ground (arith, equal_refl x)) in
      let below : Subset xs (erase x ys) =
        λ a h. ground (arith, s a, contains-erase_ne x a ys, e.equal_iff a x) in
      omega (arith, length-erase x ys held, length_mono-Subset xs (erase x ys) ds below)

  abbrev Disjoint : List A → List A → Type ℓ
  Disjoint xs ys = (a : A) → contains xs a ≡ true → contains ys a ≡ false

  Distinct-append :
      (xs ys : List A) → Distinct xs → Distinct ys → Disjoint xs ys → Distinct (xs ++ ys)
  unfolding contains
  Distinct-append [] ys dx dy apart = dy
  Distinct-append (x ∷ xs) ys (d, ds) dy apart =
      let apart_tail : Disjoint xs ys = λ a h. apart a (ground arith) in
      (
        ground (arith, contains-append xs ys x, apart x, equal_refl x),
        Distinct-append xs ys ds dy apart_tail,
      )

  length-partition :
      (keep : A → Bool) (xs : List A)
      → length (retain keep xs) + length (retain (λ a. not (keep a)) xs) ≡ length xs
  length-partition keep [] = omega arith
  length-partition keep (x ∷ xs) = ground (arith, length-partition keep xs)

  -- Inclusion and exclusion: two sets inside one list share what does not fit beside one another.
  pub length-overlap :
      (xs ys all : List A)
      → Distinct xs
      → Distinct ys
      → Subset xs all
      → Subset ys all
      → length xs + length ys ≤ length all + length (retain (contains ys) xs)
  length-overlap xs ys all dx dy sx sy =
      let rest = retain (λ a. not (contains ys a)) xs in
      let apart : Disjoint rest ys =
        λ a h. ground (arith, contains-retain (λ b. not (contains ys b)) xs a) in
      let inside : Subset (rest ++ ys) all = λ a h. ground (
        arith,
        contains-append rest ys a,
        contains-retain (λ b. not (contains ys b)) xs a,
        sx a,
        sy a,
      ) in
      omega (
        arith,
        length-partition (contains ys) xs,
        length-append rest ys,
        length_mono-Subset (rest ++ ys) all
            (Distinct-append rest ys (Distinct-retain (λ b. not (contains ys b)) xs dx) dy apart)
            inside,
      )
