-- ===== src/Resilience/Retry.antt =====
-- libs/rust/core/src/resilience.rs: `retry_async`. The operation is a function of the attempt's
-- number. A `Duration` is a number of nanoseconds, an `i64` its 64 bits, and arithmetic on it wraps around.
pub mod Laws
use swarm_intelligence_netwo.Prelude.{
  Distinct-snoc, all_recent, recent, length-recent, recent-recent, recent-append, make_room-push,
  push-make_room, ℕ, zero, suc, ◌+◌, ◌-◌, ◌*◌, ◌/◌, ◌%◌, ◌^◌, ◌≤◌, ◌<◌, min, max, String, ◌≡◌, refl,
  sym, ap, ◌∙◌, ◌≢◌, ◌↔◌, ◌⊎◌, inl, inr, Bool, true, false, not, ◌&&◌, ◌||◌, Option, none, some,
  List, [], ◌∷◌, ◌++◌, map, arith, ltb, leb, nat_beq, if◌then◌else◌, nat_beq_iff, Eq, ◌==◌,
  string_eq, nat_eq, pair_beq, pair_beq_iff, pair_eq, Bool-cases, Option-cases, some-injective,
  none-some, is_some, u64, u32, u8, u64_id, contains, insert, Distinct, Subset, equal_refl,
  contains-insert, contains-insert_self, length-insert, Distinct-insert, insert_of_contains,
  contains-append, contains-retain, Distinct-retain, length_mono-Subset, length-overlap, length,
  get_elem?, take, drop, replicate, retain, All, length-append, length-replicate, length-drop,
  length-take, take-append-drop, length-retain-le, All-append, length-map, Map, lookup, remove, put,
  lookup-remove, lookup-put,
}

pub data Result {ℓ κ} (T : Type ℓ) (E : Type κ) : Type (ℓ ⊔ κ) where
  ok : T → Result T E
  err : E → Result T E

-- How the loop ends: with a result, or with a panic.
pub data Outcome {ℓ κ} (T : Type ℓ) (E : Type κ) : Type (ℓ ⊔ κ) where
  done : Result T E → Outcome T E
  panic : Outcome T E

-- What the code takes from `std::time`, from the floats and from `rand`: `scale base n` is
-- `base.mul_f64(2f64.powi(n as i32))`, which panics where the product is no `Duration`: `none`.
-- `jitter_ms d` is `(d as f64 * jitter) as u64`, and `draw n j` is how far the number that
-- `gen_range` draws at attempt `n` stands above the lower end of its range, `-j`.
pub record Sources : Type 0 where
  pub scale : ℕ → ℕ → Option ℕ
  pub jitter_ms : ℕ → ℕ
  pub draw : ℕ → ℕ → ℕ

-- `jitter` is at most 1.0, as its comment says, and a `f64` holds the numbers up to 2^53 exactly;
-- `gen_range(-j..j + 1)` stays in its range.
pub record AreDocumented (s : Sources) : Type 0 where
  pub jitter-le : (d : ℕ) → d ≤ 2 ^ 53 → s.jitter_ms d ≤ d
  pub draw-le : (n j : ℕ) → j ≤ 2 ^ 53 → s.draw n j ≤ 2 * j

-- `jitters` is `jitter > 0.0`.
pub record RetryConfig : Type 0 where
  pub max_retries : ℕ
  pub base_delay : ℕ
  pub max_delay : ℕ
  pub jitters : Bool

abbrev pub as_millis : ℕ → ℕ
as_millis d = d / 1_000_000

abbrev pub from_millis : ℕ → ℕ
from_millis ms = ms * 1_000_000

-- `<` of `i64`, and `-` of one of its numbers.
abbrev pub less_i64 : ℕ → ℕ → Bool
less_i64 a b = ltb (u64 (a + 2 ^ 63)) (u64 (b + 2 ^ 63))

abbrev pub neg_i64 : ℕ → ℕ
neg_i64 a = u64 (2 ^ 64 - u64 a)

abbrev pub max_zero : ℕ → ℕ
max_zero a = if ltb a (2 ^ 63) then a else 0

-- A delay of `ms` milliseconds with jitter `j`, of which `k` is drawn. An empty range is a panic.
unfoldable pub jittered : ℕ → ℕ → ℕ → Option ℕ
jittered ms j k =
    let low = neg_i64 j in
    let offset = u64 (low + k) in
    let base_ms = u64 (u64 ms + offset) in
    if less_i64 low (u64 (j + 1)) then some (from_millis (max_zero base_ms)) else none

abbrev pub with_jitter : Sources → RetryConfig → ℕ → Option ℕ → Option ℕ
with_jitter s cfg attempt none = none
with_jitter s cfg attempt (some exp) =
    let delay = min exp cfg.max_delay in
    let j = s.jitter_ms (as_millis delay) in
    if cfg.jitters then jittered (as_millis delay) j (s.draw attempt j) else some delay

-- The sleep after a failed attempt; `none` is a panic.
unfoldable pub delay_after : Sources → RetryConfig → ℕ → Option ℕ
delay_after s cfg attempt = with_jitter s cfg attempt (s.scale cfg.base_delay attempt)

module _ {ℓ κ} {T : Type ℓ} {E : Type κ} where
  abbrev pub after_sleep : ℕ → Option (Outcome T E × List ℕ) → Option (Outcome T E × List ℕ)
  after_sleep delay none = none
  after_sleep delay (some (r, sleeps)) = some (r, delay ∷ sleeps)

  abbrev pub after_delay : Option ℕ → Option (Outcome T E × List ℕ) → Option (Outcome T E × List ℕ)
  after_delay none rest = some (panic, [])
  after_delay (some delay) rest = after_sleep delay rest

  -- The loop, from attempt `attempt` on: the outcome, and the sleeps. `none` means that the fuel ran
  -- out. `attempt` is a `usize` that stays at or below `max_retries`.
  unfoldable pub retry_from :
      Sources → RetryConfig → (ℕ → Result T E) → ℕ → ℕ → Option (Outcome T E × List ℕ)
  retry_from s cfg op zero attempt = none
  retry_from s cfg op (suc fuel) attempt = elim (op attempt) [
    | ok v ↦ some (done (ok v), [])
    | err e ↦
        let rest = retry_from s cfg op fuel (attempt + 1) in
        if leb cfg.max_retries attempt
        then some (done (err e), [])
        else after_delay (delay_after s cfg attempt) rest
  ]

  pub retry_from-ok :
      (s : Sources) (cfg : RetryConfig) (op : ℕ → Result T E) (fuel attempt : ℕ) (v : T)
      → op attempt ≡ ok v
      → retry_from s cfg op (suc fuel) attempt ≡ some (done (ok v), [])
  unfolding retry_from
  retry_from-ok s cfg op fuel attempt v h = rw (h, retry_from)

  pub retry_from-last :
      (s : Sources) (cfg : RetryConfig) (op : ℕ → Result T E) (fuel attempt : ℕ) (e : E)
      → op attempt ≡ err e
      → cfg.max_retries ≤ attempt
      → retry_from s cfg op (suc fuel) attempt ≡ some (done (err e), [])
  unfolding retry_from
  retry_from-last s cfg op fuel attempt e h w =
      let stop : leb cfg.max_retries attempt ≡ true = ground arith in rw (h, retry_from) (rw stop)

  pub retry_from-again :
      (s : Sources) (cfg : RetryConfig) (op : ℕ → Result T E) (fuel attempt : ℕ) (e : E)
      → op attempt ≡ err e
      → attempt < cfg.max_retries
      → retry_from s cfg op (suc fuel) attempt
        ≡ after_delay (delay_after s cfg attempt) (retry_from s cfg op fuel (attempt + 1))
  unfolding retry_from
  retry_from-again s cfg op fuel attempt e h w =
      let go_on : leb cfg.max_retries attempt ≡ false = ground arith in
      rw (h, retry_from) (rw go_on)

  unfoldable pub retry_async :
      Sources → RetryConfig → (ℕ → Result T E) → Option (Outcome T E × List ℕ)
  unfolding retry_from
  retry_async s cfg op = retry_from s cfg op (suc cfg.max_retries) 0
