-- ===== src/SwarmGossip/Filter.antt =====
-- services/swarm-gossip/src/main.rs: what one call of the filter does in a window.
use native.Mathlib.Nat.{mod-lt}
use swarm_intelligence_netwo.Prelude.{
  ℕ, zero, suc, ◌+◌, ◌*◌, ◌/◌, ◌%◌, ◌<◌, String, ◌≡◌, refl, ap, ◌∙◌, inl, inr, Bool, true, false,
  not, ◌&&◌, ◌||◌, Option, none, some, List, [], ◌∷◌, arith, if◌then◌else◌, nat_beq_iff, ◌==◌,
  string_eq, nat_eq, pair_eq, Bool-cases, length, get_elem?,
}
use swarm_intelligence_netwo.SwarmGossip.Bits.{test_bit, set_in, test_bit-set_in}
use swarm_intelligence_netwo.SwarmGossip.{
  BloomDupFilter, maybe_reset, set_byte, set_bit, seen_or_insert,
}

-- Whether the bit is set; bits out of range are not.
abbrev bit_of : Option ℕ → ℕ → Bool
bit_of none i = false
bit_of (some b) i = test_bit i b

abbrev pub is_set : ℕ → List ℕ → Bool
is_set idx bits = bit_of (get_elem? bits (idx / 8)) (idx % 8)

get_elem-in : (xs : List ℕ) (i : ℕ) → i < length xs → (b : ℕ) × (get_elem? xs i ≡ some b)
get_elem-in [] i h = absurd (omega arith)
get_elem-in (x ∷ xs) zero h = (x, refl)
get_elem-in (x ∷ xs) (suc i) h = get_elem-in xs i (omega arith)

get_elem-set_byte :
    (i j b : ℕ) (xs : List ℕ)
    → i < length xs
    → get_elem? (set_byte i b xs) j ≡ (if i == j then some b else get_elem? xs j)
unfolding set_byte
get_elem-set_byte i j b [] h = absurd (omega arith)
get_elem-set_byte zero zero b (x ∷ xs) h = refl
get_elem-set_byte zero (suc j) b (x ∷ xs) h = ground arith
get_elem-set_byte (suc i) zero b (x ∷ xs) h = ground arith
get_elem-set_byte (suc i) (suc j) b (x ∷ xs) h =
    get_elem-set_byte i j b xs (omega arith) ∙ ground arith

length-set_byte : (i b : ℕ) (xs : List ℕ) → length (set_byte i b xs) ≡ length xs
unfolding set_byte
length-set_byte i b [] = refl
length-set_byte zero b (x ∷ xs) = refl
length-set_byte (suc i) b (x ∷ xs) = ap suc (length-set_byte i b xs)

is_set-set_byte :
    (idx j b : ℕ) (bits : List ℕ)
    → idx / 8 < length bits
    → get_elem? bits (idx / 8) ≡ some b
    → is_set j (set_byte (idx / 8) (set_in (idx % 8) b) bits) ≡ (idx == j || is_set j bits)
is_set-set_byte idx j b bits inside found =
    let b' = set_in (idx % 8) b in
    let stored = get_elem-set_byte (idx / 8) (j / 8) b' bits inside in
    elim (Bool-cases (idx / 8 == j / 8)) [
      | inl same ↦
          let there : get_elem? bits (j / 8) ≡ some b =
            ap (λ (k : ℕ). get_elem? bits k)
              ((nat_beq_iff (j / 8) (idx / 8)).0 (ground (arith, same)))
            ∙ found in
          rw (stored, same, there, test_bit-set_in) (ground (arith, same))
      | inr other ↦ rw (stored, other) (ground (arith, other))
    ]

-- In range, `set_bit` sets that bit and no other, and tells whether it was set.
set_bit-sets :
    (idx : ℕ) (bits : List ℕ)
    → idx < 8 * length bits
    → (bits' : List ℕ) × (set_bit idx bits ≡ some (bits', is_set idx bits))
      × (length bits' ≡ length bits)
      × ((j : ℕ) → is_set j bits' ≡ (idx == j || is_set j bits))
unfolding set_bit
set_bit-sets idx bits h =
    let inside : idx / 8 < length bits = omega arith in
    let (b, found) = get_elem-in bits (idx / 8) inside in
    let b' = set_in (idx % 8) b in
    (
      set_byte (idx / 8) b' bits,
      rw (found, set_bit) refl,
      length-set_byte (idx / 8) b' bits,
      λ j. is_set-set_byte idx j b bits inside found,
    )

-- The mask fits the bytes, of which there is one at least.
pub record IsSized (f : BloomDupFilter) : Type 0 where
  pub one_byte : 0 < length f.bits
  pub mask_fits : f.mask + 1 ≡ 8 * length f.bits

-- The time lies in the window that the last reset opened.
abbrev pub InWindow : ℕ → BloomDupFilter → Type 0
InWindow now f = now < f.last_reset + f.reset_after

-- `f'` is `f` with more bits set.
pub record Grows (f f' : BloomDupFilter) : Type 0 where
  pub same_length : length f'.bits ≡ length f.bits
  pub same_mask : f'.mask ≡ f.mask
  pub same_reset : f'.last_reset ≡ f.last_reset
  pub same_after : f'.reset_after ≡ f.reset_after
  pub still_set : (j : ℕ) → is_set j f.bits ≡ true → is_set j f'.bits ≡ true

hits_agree :
    (a b : ℕ) (bits bits1 : List ℕ)
    → is_set b bits1 ≡ (a == b || is_set b bits)
    → (is_set a bits && is_set b bits1) ≡ (is_set a bits && is_set b bits)
hits_agree a b bits bits1 first = elim (Bool-cases (a == b)) [
  | inl same ↦
      let again : is_set b bits ≡ is_set a bits =
        ap (λ (j : ℕ). is_set j bits) ((nat_beq_iff b a).0 (ground (arith, same))) in
      ground (arith, first, again, same)
  | inr other ↦ ground (arith, first, other)
]

module _ (hash_a hash_b : String → ℕ) where
  -- Both bits of the id are set.
  abbrev pub known : String → BloomDupFilter → Bool
  known id f = is_set (hash_a id % (f.mask + 1)) f.bits && is_set (hash_b id % (f.mask + 1)) f.bits

  maybe_reset-InWindow :
      (now : ℕ) (f : BloomDupFilter) → InWindow now f → 0 < f.reset_after → maybe_reset now f ≡ f
  unfolding maybe_reset
  maybe_reset-InWindow now f within some_time = ground (arith, within, some_time)

  pub seen_or_insert-InWindow :
      (id : String) (now : ℕ) (f : BloomDupFilter)
      → IsSized f
      → InWindow now f
      → 0 < f.reset_after
      → (f' : BloomDupFilter) × (seen_or_insert hash_a hash_b id now f
          ≡ some (f', not (known id f)))
        × Grows f f'
        × (known id f' ≡ true)
  unfolding seen_or_insert
  seen_or_insert-InWindow id now f sized within some_time =
      let n = f.mask + 1 in
      let a = hash_a id % n in
      let b = hash_b id % n in
      let a_fits : a < n = mod-lt (hash_a id) (omega arith) in
      let b_fits : b < n = mod-lt (hash_b id) (omega arith) in
      let (bits1, set_a, long1, first) =
        set_bit-sets a f.bits (omega (arith, a_fits, sized.mask_fits)) in
      let (bits2, set_b, long2, second) =
        set_bit-sets b bits1 (omega (arith, b_fits, sized.mask_fits, long1)) in
      let f' = record f { bits = bits2 } in
      let same_hits : (is_set a f.bits && is_set b bits1) ≡ known id f =
        hits_agree a b f.bits bits1 (first b) in
      (
        f',
        rw (maybe_reset-InWindow now f within some_time, set_a, set_b, same_hits) refl,
        record {
          same_length = long2 ∙ long1;
          same_mask = refl;
          same_reset = refl;
          same_after = refl;
          still_set = λ j h. ground (arith, h, first j, second j);
        },
        ground (arith, first a, second a, second b),
      )
