-- ===== src/Text.antt =====
-- Text as the bytes of its UTF-8 form, for the code that takes keys apart: `str::split` and, in
-- `Decimal`, the printing and parsing of `u64`.
pub mod Decimal
use swarm_intelligence_netwo.Prelude.{
  Distinct-snoc, all_recent, recent, length-recent, recent-recent, recent-append, make_room-push,
  push-make_room, ℕ, zero, suc, ◌+◌, ◌-◌, ◌*◌, ◌/◌, ◌%◌, ◌^◌, ◌≤◌, ◌<◌, min, max, String, ◌≡◌, refl,
  sym, ap, ◌∙◌, ◌≢◌, ◌↔◌, ◌⊎◌, inl, inr, Bool, true, false, not, ◌&&◌, ◌||◌, Option, none, some,
  List, [], ◌∷◌, ◌++◌, map, arith, ltb, leb, nat_beq, if◌then◌else◌, nat_beq_iff, Eq, ◌==◌,
  string_eq, nat_eq, pair_beq, pair_beq_iff, pair_eq, Bool-cases, Option-cases, some-injective,
  none-some, is_some, u64, u32, u8, u64_id, contains, insert, Distinct, Subset, equal_refl,
  contains-insert, contains-insert_self, length-insert, Distinct-insert, insert_of_contains,
  contains-append, contains-retain, Distinct-retain, length_mono-Subset, length-overlap, length,
  get_elem?, take, drop, replicate, retain, All, length-append, length-replicate, length-drop,
  length-take, take-append-drop, length-retain-le, All-append, length-map, Map, lookup, remove, put,
  lookup-remove, lookup-put,
}

abbrev pub Text : Type 0
Text = List ℕ

abbrev pub text_beq : Text → Text → Bool
text_beq [] [] = true
text_beq (x ∷ xs) (y ∷ ys) = nat_beq x y && text_beq xs ys
text_beq _ _ = false

pub text_beq_iff : (s t : Text) → (text_beq s t ≡ true) ↔ (s ≡ t)
text_beq_iff [] [] = ground arith
text_beq_iff [] (y ∷ ys) = ground arith
text_beq_iff (x ∷ xs) [] = ground arith
text_beq_iff (x ∷ xs) (y ∷ ys) = ground (arith, text_beq_iff xs ys)

instance abbrev pub text_eq : Eq Text
text_eq = record { equal_iff = text_beq_iff; equal = text_beq }

abbrev pub colon : ℕ
colon = b':'

-- The byte stands nowhere in the text.
abbrev pub Without : ℕ → Text → Type 0
Without c s = contains s c ≡ false

abbrev onto_first : ℕ → List Text → List Text
onto_first x [] = (x ∷ []) ∷ []
onto_first x (p ∷ ps) = (x ∷ p) ∷ ps

-- `s.split(c)`, collected
unfoldable pub split : ℕ → Text → List Text
split c [] = [] ∷ []
split c (x ∷ xs) = let rest = split c xs in if x == c then [] ∷ rest else onto_first x rest

pub split_single : (c : ℕ) (s : Text) → Without c s → split c s ≡ s ∷ []
unfolding split contains
split_single c [] w = refl
split_single c (x ∷ xs) w = ground (arith, split_single c xs)

pub split-append :
    (c : ℕ) (s rest : Text) → Without c s → split c (s ++ c ∷ rest) ≡ s ∷ split c rest
unfolding split contains
split-append c [] rest w = ground arith
split-append c (x ∷ xs) rest w = ground (arith, split-append c xs rest)

pub split_nonempty : (c : ℕ) (s : Text) → 0 < length (split c s)
unfolding split
split_nonempty c [] = omega arith
split_nonempty c (x ∷ xs) = ground arith

-- A text that has the byte is split into two parts at least.
pub length-split : (c : ℕ) (s : Text) → contains s c ≡ true → 1 < length (split c s)
unfolding split contains
length-split c [] h = ground arith
length-split c (x ∷ xs) h = ground (arith, length-split c xs, split_nonempty c xs)

onto_first-append :
    (x : ℕ) (ps qs : List Text) → 0 < length ps → onto_first x (ps ++ qs) ≡ onto_first x ps ++ qs
onto_first-append x [] qs some_part = absurd (omega (arith, some_part))
onto_first-append x (p ∷ ps) qs some_part = refl

-- A byte between two texts splits them.
pub split_between : (c : ℕ) (s rest : Text) → split c (s ++ c ∷ rest) ≡ split c s ++ split c rest
unfolding split
split_between c [] rest = ground arith
split_between c (x ∷ xs) rest = ground (
  arith,
  split_between c xs rest,
  onto_first-append x (split c xs) (split c rest) (split_nonempty c xs),
)
