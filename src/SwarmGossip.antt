-- ===== src/SwarmGossip.antt =====
-- services/swarm-gossip/src/main.rs: the state of the gossip service, its peers and the Bloom filter by
-- which it knows duplicates. The two hashes of an id and the time are arguments; `h & mask` for a mask
-- of ones is the remainder, and `none` is the panic of an index out of range.
pub mod Bits
pub mod Filter
pub mod Window
pub mod Peers
pub mod Router
mod Tests
use swarm_intelligence_netwo.Prelude.{
  Distinct-snoc, all_recent, recent, length-recent, recent-recent, recent-append, make_room-push,
  push-make_room, ℕ, zero, suc, ◌+◌, ◌-◌, ◌*◌, ◌/◌, ◌%◌, ◌^◌, ◌≤◌, ◌<◌, min, max, String, ◌≡◌, refl,
  sym, ap, ◌∙◌, ◌≢◌, ◌↔◌, ◌⊎◌, inl, inr, Bool, true, false, not, ◌&&◌, ◌||◌, Option, none, some,
  List, [], ◌∷◌, ◌++◌, map, arith, ltb, leb, nat_beq, if◌then◌else◌, nat_beq_iff, Eq, ◌==◌,
  string_eq, nat_eq, pair_beq, pair_beq_iff, pair_eq, Bool-cases, Option-cases, is_some, u64, u32,
  u8, u64_id, contains, insert, Distinct, Subset, equal_refl, contains-insert, contains-insert_self,
  length-insert, Distinct-insert, insert_of_contains, contains-append, contains-retain,
  Distinct-retain, length_mono-Subset, length-overlap, length, get_elem?, take, drop, replicate,
  retain, All, length-append, length-drop, length-take, take-append-drop, length-retain-le,
  All-append, length-map, Map, lookup, remove, put, lookup-remove, lookup-put,
}
use swarm_intelligence_netwo.Gossip.{Sampler}
use swarm_intelligence_netwo.SwarmGossip.Bits.{test_bit, set_in}

pub record BloomDupFilter : Type 0 where
  pub bits : List ℕ
  pub mask : ℕ
  pub last_reset : ℕ
  pub reset_after : ℕ

-- `usize::next_power_of_two`, from `p` on; 64 doublings reach every `usize`.
abbrev pub next_power_of_two : ℕ → ℕ → ℕ → ℕ
next_power_of_two zero p n = p
next_power_of_two (suc fuel) p n =
    let rest = next_power_of_two fuel (p * 2) n in if leb n p then p else rest

unfoldable pub new : ℕ → ℕ → ℕ → BloomDupFilter
new size_pow2 reset_after now =
    let size = next_power_of_two 64 1 size_pow2 in
    record {
      bits = replicate (size / 8) 0;
      mask = size - 1;
      last_reset = now;
      reset_after = reset_after;
    }

unfoldable pub maybe_reset : ℕ → BloomDupFilter → BloomDupFilter
maybe_reset now f =
    if leb f.reset_after (now - f.last_reset)
    then record f { bits = replicate (length f.bits) 0; last_reset = now }
    else f

unfoldable pub set_byte : ℕ → ℕ → List ℕ → List ℕ
set_byte i b [] = []
set_byte zero b (x ∷ xs) = b ∷ xs
set_byte (suc i) b (x ∷ xs) = x ∷ set_byte i b xs

-- Whether the bit was set before is the second part.
unfoldable pub set_bit : ℕ → List ℕ → Option (List ℕ × Bool)
set_bit idx bits = elim (get_elem? bits (idx / 8)) [
  | none ↦ none
  | some b ↦ some (set_byte (idx / 8) (set_in (idx % 8) b) bits, test_bit (idx % 8) b)
]

abbrev pub both_hit :
    BloomDupFilter → Bool → Option (List ℕ × Bool) → Option (BloomDupFilter × Bool)
both_hit f hit_a none = none
both_hit f hit_a (some (bits, hit_b)) = some (record f { bits = bits }, not (hit_a && hit_b))

abbrev pub then_set : BloomDupFilter → ℕ → Option (List ℕ × Bool) → Option (BloomDupFilter × Bool)
then_set f b none = none
then_set f b (some (bits, hit_a)) = both_hit f hit_a (set_bit b bits)

module _ (hash_a hash_b : String → ℕ) where
  -- Whether the id is new.
  unfoldable pub seen_or_insert : String → ℕ → BloomDupFilter → Option (BloomDupFilter × Bool)
  seen_or_insert id now f =
      let f' = maybe_reset now f in
      then_set f' (hash_b id % (f'.mask + 1)) (set_bit (hash_a id % (f'.mask + 1)) f'.bits)

pub record GossipState : Type 0 where
  pub peers : List String
  pub dup_filter : BloomDupFilter
  pub node_id : String

-- The filter has 2 ^ 17 bits and is reset after 60 seconds, here in units of which there are `second`.
unfoldable pub new_state : String → ℕ → ℕ → GossipState
unfolding new
new_state node_id second now = record {
  peers = [];
  dup_filter = new (2 ^ 17) (60 * second) now;
  node_id = node_id;
}

unfoldable pub add_peer : String → GossipState → GossipState
add_peer p s = if p == s.node_id then s else record s { peers = insert p s.peers }

module _ {Rng : Type 0} ⦃sampler : Sampler Rng⦄ where
  unfoldable pub random_fanout : Rng → ℕ → GossipState → List String
  random_fanout g fanout s = if leb (length s.peers) 0 then [] else sampler.choose g fanout s.peers
