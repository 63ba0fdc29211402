-- ===== src/Float.antt =====
-- `f32` and `f64`, as an interface: the operations that the code uses, and of the order only the laws
-- that hold of all numbers but NaN. The two types are two instances.
pub mod Numbers
use swarm_intelligence_netwo.Prelude.{
  Distinct-snoc, all_recent, recent, length-recent, recent-recent, recent-append, make_room-push,
  push-make_room, ℕ, zero, suc, ◌+◌, ◌-◌, ◌*◌, ◌/◌, ◌%◌, ◌^◌, ◌≤◌, ◌<◌, min, max, String, ◌≡◌, refl,
  sym, ap, ◌∙◌, ◌≢◌, ◌↔◌, ◌⊎◌, inl, inr, Bool, true, false, not, ◌&&◌, ◌||◌, Option, none, some,
  List, [], ◌∷◌, ◌++◌, map, arith, ltb, leb, nat_beq, if◌then◌else◌, nat_beq_iff, Eq, ◌==◌,
  string_eq, nat_eq, pair_beq, pair_beq_iff, pair_eq, Bool-cases, Option-cases, some-injective,
  none-some, is_some, u64, u32, u8, u64_id, contains, insert, Distinct, Subset, equal_refl,
  contains-insert, contains-insert_self, length-insert, Distinct-insert, insert_of_contains,
  contains-append, contains-retain, Distinct-retain, length_mono-Subset, length-overlap, length,
  get_elem?, take, drop, replicate, retain, All, length-append, length-replicate, length-drop,
  length-take, take-append-drop, length-retain-le, All-append, length-map, Map, lookup, remove, put,
  lookup-remove, lookup-put,
}

pub record Float (F : Type 0) : Type 0 where
  pub of_nat : ℕ → F
  -- The decimal literal `n / 10 ^ k`.
  pub lit : ℕ → ℕ → F
  pub add : F → F → F
  pub sub : F → F → F
  pub mul : F → F → F
  pub div : F → F → F
  pub neg : F → F
  pub abs : F → F
  pub sqrt : F → F
  pub exp : F → F
  pub powf : F → F → F
  pub lt : F → F → Bool
  pub le : F → F → Bool
  pub max_of : F → F → F

-- Laws of the order that hold of every float, NaN included.
pub record OrderLaws {F : Type 0} (f : Float F) : Type 0 where
  pub lt_irrefl : (x : F) → f.lt x x ≡ false
  pub not_lt_of_le : (x y : F) → f.le x y ≡ true → f.lt y x ≡ false

module _ {F : Type 0} ⦃f : Float F⦄ where
  -- `a > b`
  abbrev pub gt : F → F → Bool
  gt a b = f.lt b a

  -- `iter().sum()`: the terms are added to the left.
  abbrev pub sum_from : F → List F → F
  sum_from acc [] = acc
  sum_from acc (x ∷ xs) = sum_from (f.add acc x) xs

  abbrev pub sum : List F → F
  sum xs = sum_from (f.of_nat 0) xs

  abbrev pub mean : List F → F
  mean xs = f.div (sum xs) (f.of_nat (length xs))

  -- `clamp`, for bounds that are in order.
  abbrev pub clamp : F → F → F → F
  clamp low high x = if f.lt x low then low else if f.lt high x then high else x
