-- ===== src/Reputation.antt =====
-- libs/rust/core/src/reputation.rs: the reputation of nodes. `F` stands for `f64`. Times are
-- nanoseconds, each reading of the clock is an argument, and `elapsed` stops at zero. The lock is held
-- from start to end of each operation. `none` is the panic of `clamp` on bounds out of order.
pub mod Bounds
mod Tests
use swarm_intelligence_netwo.Prelude.{
  Distinct-snoc, all_recent, recent, length-recent, recent-recent, recent-append, make_room-push,
  push-make_room, ℕ, zero, suc, ◌+◌, ◌-◌, ◌*◌, ◌/◌, ◌%◌, ◌^◌, ◌≤◌, ◌<◌, min, max, String, ◌≡◌, refl,
  sym, ap, ◌∙◌, ◌≢◌, ◌↔◌, ◌⊎◌, inl, inr, Bool, true, false, not, ◌&&◌, ◌||◌, Option, none, some,
  List, [], ◌∷◌, ◌++◌, map, arith, ltb, leb, nat_beq, if◌then◌else◌, nat_beq_iff, Eq, ◌==◌,
  string_eq, nat_eq, pair_beq, pair_beq_iff, pair_eq, Bool-cases, Option-cases, some-injective,
  none-some, is_some, u64, u32, u8, u64_id, contains, insert, Distinct, Subset, equal_refl,
  contains-insert, contains-insert_self, length-insert, Distinct-insert, insert_of_contains,
  contains-append, contains-retain, Distinct-retain, length_mono-Subset, length-overlap, length,
  get_elem?, take, drop, replicate, retain, All, length-append, length-replicate, length-drop,
  length-take, take-append-drop, length-retain-le, All-append, length-map, Map, lookup, remove, put,
  lookup-remove, lookup-put,
}
use swarm_intelligence_netwo.Float.{Float, clamp}

pub record ReputationEntry (F : Type 0) : Type 0 where
  pub score : F
  pub last_update : ℕ

pub record ReputationConfig (F : Type 0) : Type 0 where
  pub half_life_secs : ℕ
  pub min_score : F
  pub max_score : F
  pub penalty : F
  pub reward : F

pub record ReputationService (F : Type 0) : Type 0 where
  pub cfg : ReputationConfig F
  pub entries : Map String (ReputationEntry F)

-- The readings of the clock in `adjust`: for a new entry, for the decay and for the update.
pub record Readings : Type 0 where
  pub at_insert : ℕ
  pub at_decay : ℕ
  pub at_update : ℕ

abbrev pub nanos_per_sec : ℕ
nanos_per_sec = 10 ^ 9

module _ {F : Type 0} ⦃f : Float F⦄ where
  unfoldable pub default_config : ReputationConfig F
  default_config = record {
    half_life_secs = 3600;
    min_score = f.lit 0 0;
    max_score = f.lit 1000 0;
    penalty = f.lit 50 0;
    reward = f.lit 10 0;
  }

  unfoldable pub new : ReputationConfig F → ReputationService F
  new cfg = record { cfg = cfg; entries = [] }

  -- `f64::clamp`, which asserts that the bounds are in order.
  unfoldable pub clamped : F → F → F → Option F
  clamped low high x = if f.le low high then some (clamp low high x) else none

  abbrev pub as_secs_f64 : ℕ → F
  as_secs_f64 nanos =
      f.add (f.of_nat (nanos / nanos_per_sec))
        (f.div (f.of_nat (nanos % nanos_per_sec)) (f.of_nat nanos_per_sec))

  unfoldable pub decayed_score : ReputationConfig F → ℕ → ReputationEntry F → Option F
  decayed_score cfg now e =
      let elapsed = as_secs_f64 (now - e.last_update) in
      let hl = f.of_nat cfg.half_life_secs in
      let decay_factor = f.powf (f.lit 5 1) (f.div elapsed hl) in
      clamped cfg.min_score cfg.max_score (f.mul e.score decay_factor)

  abbrev pub half_max : ReputationConfig F → F
  half_max cfg = f.div cfg.max_score (f.lit 2 0)

  unfoldable pub get : String → ℕ → ReputationService F → Option F
  get node now s = elim (lookup node s.entries) [
    | none ↦ some (half_max s.cfg)
    | some e ↦ decayed_score s.cfg now e
  ]

  abbrev pub or_insert : ReputationEntry F → Option (ReputationEntry F) → ReputationEntry F
  or_insert fresh none = fresh
  or_insert fresh (some e) = e

  abbrev pub rescore : ReputationConfig F → F → Option F → Option F
  rescore cfg delta none = none
  rescore cfg delta (some current) = clamped cfg.min_score cfg.max_score (f.add current delta)

  abbrev pub stored : String → ℕ → ReputationService F → Option F → Option (ReputationService F)
  stored node now s none = none
  stored node now s (some score) =
      some (record s { entries = put node (record { score = score; last_update = now }) s.entries })

  unfoldable pub adjust : String → F → Readings → ReputationService F → Option (ReputationService F)
  unfolding put
  adjust node delta t s =
      let fresh : ReputationEntry F = record {
        score = half_max s.cfg;
        last_update = t.at_insert;
      } in
      let entry = or_insert fresh (lookup node s.entries) in
      stored node t.at_update s (rescore s.cfg delta (decayed_score s.cfg t.at_decay entry))

  unfoldable pub reward : String → Readings → ReputationService F → Option (ReputationService F)
  reward node t s = adjust node s.cfg.reward t s

  unfoldable pub penalize : String → Readings → ReputationService F → Option (ReputationService F)
  penalize node t s = adjust node (f.neg s.cfg.penalty) t s
