-- ===== src/Resilience/Retry/Laws.antt =====
-- libs/rust/core/src/resilience.rs: how often `retry_async` tries, what it returns, how long it waits.
use native.Mathlib.Nat.{add-zero}
use swarm_intelligence_netwo.Prelude.{
  ℕ, zero, suc, ◌+◌, ◌-◌, ◌*◌, ◌%◌, ◌^◌, ◌≤◌, ◌<◌, min, ◌≡◌, refl, sym, ◌∙◌, ◌⊎◌, inl, inr, true,
  Option, none, some, List, [], ◌∷◌, arith, leb, if◌then◌else◌, string_eq, nat_eq, pair_eq,
  Bool-cases, Option-cases, u64, length, get_elem?,
}
use swarm_intelligence_netwo.Resilience.Retry.{
  Result, ok, err, Outcome, done, panic, Sources, AreDocumented, RetryConfig, as_millis,
  from_millis, less_i64, neg_i64, jittered, with_jitter, delay_after, retry_from, retry_async,
  retry_from-ok, retry_from-last, retry_from-again,
}

module _ {ℓ κ} {T : Type ℓ} {E : Type κ} where
  -- How `outcome` can come about at the attempt `now`: a result is what the attempt gave, and a
  -- failure is returned at the last retry alone; a panic is that of the delay after a failed attempt,
  -- before the last retry.
  abbrev pub Comes : Sources → RetryConfig → (ℕ → Result T E) → ℕ → Outcome T E → Type (ℓ ⊔ κ)
  Comes s cfg op now (done r) = (op now ≡ r) × ((e : E) → r ≡ err e → now ≡ cfg.max_retries)
  Comes s cfg op now panic =
      (e : E) × (op now ≡ err e) × (now < cfg.max_retries) × (delay_after s cfg now ≡ none)

  -- The outcome after `sleeps` explained by the operation: it comes from the attempt after the last
  -- sleep, each attempt before it failed, and the sleeps are the delays of those attempts.
  pub record Explains (s : Sources) (cfg : RetryConfig) (op : ℕ → Result T E) (attempt : ℕ)
      (outcome : Outcome T E) (sleeps : List ℕ) : Type (ℓ ⊔ κ) where
    pub last : Comes s cfg op (attempt + length sleeps) outcome
    pub earlier : (i : ℕ) → i < length sleeps → (e : E) × (op (attempt + i) ≡ err e)
    pub within : attempt + length sleeps ≤ cfg.max_retries
    pub waits : (i : ℕ) → i < length sleeps → get_elem? sleeps i ≡ delay_after s cfg (attempt + i)

  pub Result-cases : (r : Result T E) → ((v : T) × (r ≡ ok v)) ⊎ ((e : E) × (r ≡ err e))
  Result-cases (ok v) = inl (v, refl)
  Result-cases (err e) = inr (e, refl)

  module _ (s : Sources) (cfg : RetryConfig) (op : ℕ → Result T E) where
    abbrev Ends : ℕ → ℕ → Type (ℓ ⊔ κ)
    Ends fuel attempt =
        (outcome : Outcome T E) × (sleeps : List ℕ) × (retry_from s cfg op fuel attempt
          ≡ some (outcome, sleeps))
        × Explains s cfg op attempt outcome sleeps

    shift : (a i : ℕ) → a + suc i ≡ a + 1 + i
    shift a i = omega arith

    explain_now :
        (attempt : ℕ) (outcome : Outcome T E)
        → Comes s cfg op attempt outcome
        → attempt ≤ cfg.max_retries
        → Explains s cfg op attempt outcome []
    explain_now attempt outcome c w = record {
      last = rw add-zero c;
      earlier = λ i h. absurd (omega arith);
      within = omega arith;
      waits = λ i h. absurd (omega arith);
    }

    explain_later :
        (attempt delay : ℕ) (e : E) (outcome : Outcome T E) (sleeps : List ℕ)
        → op attempt ≡ err e
        → delay_after s cfg attempt ≡ some delay
        → Explains s cfg op (attempt + 1) outcome sleeps
        → Explains s cfg op attempt outcome (delay ∷ sleeps)
    explain_later attempt delay e outcome sleeps h slept x = record {
      last = rw (shift attempt (length sleeps)) x.last;
      earlier = first_or_later;
      within = omega (arith, x.within);
      waits = waited;
    }
      where
        first_or_later : (i : ℕ) → i < suc (length sleeps) → (e : E) × (op (attempt + i) ≡ err e)
        first_or_later zero h' = (e, rw add-zero h)
        first_or_later (suc i) h' = rw (shift attempt i) (x.earlier i (omega arith))

        waited :
            (i : ℕ)
            → i < suc (length sleeps)
            → get_elem? (delay ∷ sleeps) i ≡ delay_after s cfg (attempt + i)
        waited zero h' = rw add-zero (sym slept)
        waited (suc i) h' = rw (shift attempt i) (x.waits i (omega arith))

    -- After a failed attempt that is not the last.
    end_later :
        (fuel attempt : ℕ) (e : E)
        → op attempt ≡ err e
        → attempt < cfg.max_retries
        → Ends fuel (attempt + 1)
        → Ends (suc fuel) attempt
    end_later fuel attempt e h more (outcome, sleeps, eq, x) =
        elim (Option-cases (delay_after s cfg attempt)) [
          | inl stops ↦ (
            panic,
            [],
            retry_from-again s cfg op fuel attempt e h more ∙ rw stops refl,
            explain_now attempt panic (e, h, more, stops) (omega arith),
          )
          | inr (delay, slept) ↦ (
            outcome,
            delay ∷ sleeps,
            retry_from-again s cfg op fuel attempt e h more ∙ rw (slept, eq) refl,
            explain_later attempt delay e outcome sleeps h slept x,
          )
        ]

    retry_from-Ends :
        (fuel attempt : ℕ)
        → attempt ≤ cfg.max_retries
        → cfg.max_retries - attempt < fuel
        → Ends fuel attempt
    unfolding retry_from
    retry_from-Ends zero attempt w f = absurd (omega arith)
    retry_from-Ends (suc fuel) attempt w f = elim (Result-cases (op attempt)) [
      | inl (v, e) ↦ (
        done (ok v),
        [],
        retry_from-ok s cfg op fuel attempt v e,
        explain_now attempt (done (ok v)) (e, λ e' p. cc) w,
      )
      | inr (e, h) ↦ elim (Bool-cases (leb cfg.max_retries attempt)) [
        | inl last ↦ (
          done (err e),
          [],
          retry_from-last s cfg op fuel attempt e h (ground arith),
          explain_now attempt (done (err e)) (h, λ e' p. ground arith) w,
        )
        | inr more ↦
            end_later fuel attempt e h (ground arith)
              (retry_from-Ends fuel (attempt + 1) (ground arith) (ground arith))
      ]
    ]

    -- `retry_async` always ends, with a result or with a panic. Every attempt before its last one
    -- failed; it sleeps at most `max_retries` times, and its sleeps are the delays of the attempts
    -- 0, 1 and so on. A result is what the last attempt gave, and a failure is returned only after
    -- `max_retries` sleeps. A panic ends it only if the last attempt failed with retries left and the
    -- delay after it panics.
    pub retry_async-Ends :
        (outcome : Outcome T E) × (sleeps : List ℕ) × (retry_async s cfg op
          ≡ some (outcome, sleeps))
        × Explains s cfg op 0 outcome sleeps
    unfolding retry_async
    retry_async-Ends = retry_from-Ends (suc cfg.max_retries) 0 (omega arith) (omega arith)

-- A delay is at most `bound`, or it panics, and only where the multiplication does.
pub data IsDelay (bound : ℕ) : Option ℕ → Option ℕ → Type 0 where
  panics : IsDelay bound none none
  sleeps_for : (exp delay : ℕ) → delay ≤ bound → IsDelay bound (some exp) (some delay)

-- The range of the jitter is not empty, and the sum is that of the numbers.
range_of : (j : ℕ) → j ≤ 2 ^ 53 → less_i64 (neg_i64 j) (u64 (j + 1)) ≡ true
range_of zero small = refl
range_of (suc j) small =
    let a : (2 ^ 64 - suc j % 2 ^ 64) % 2 ^ 64 ≡ 2 ^ 64 - suc j = omega arith in
    let b : (2 ^ 64 - suc j + 2 ^ 63) % 2 ^ 64 ≡ 2 ^ 63 - suc j = omega arith in
    let c : ((suc j + 1) % 2 ^ 64 + 2 ^ 63) % 2 ^ 64 ≡ suc j + 1 + 2 ^ 63 = omega arith in
    rw (a, b, c) (ground arith)

sum_of :
    (ms j k : ℕ)
    → ms ≤ 2 ^ 53
    → j ≤ ms
    → k ≤ 2 * j
    → u64 (u64 ms + u64 (neg_i64 j + k)) ≡ ms + k - j
sum_of ms zero k small le drawn = omega arith
sum_of ms (suc j) k small le drawn =
    let a : (2 ^ 64 - suc j % 2 ^ 64) % 2 ^ 64 ≡ 2 ^ 64 - suc j = omega arith in
    let b : (ms % 2 ^ 64 + (2 ^ 64 - suc j + k) % 2 ^ 64) % 2 ^ 64 ≡ ms + k - suc j = omega arith in
    rw (a, b) refl

jittered-sum :
    (ms j k : ℕ)
    → ms ≤ 2 ^ 53
    → j ≤ ms
    → k ≤ 2 * j
    → jittered ms j k ≡ some (from_millis (ms + k - j))
unfolding jittered
jittered-sum ms j k small le drawn =
    let few : ms + k - j < 2 ^ 63 = omega arith in
    rw (range_of j (omega arith), sum_of ms j k small le drawn) (ground (arith, few))

with_jitter-IsDelay :
    (s : Sources) (cfg : RetryConfig) (attempt : ℕ) (exp : Option ℕ)
    → AreDocumented s
    → cfg.max_delay ≤ from_millis (2 ^ 53)
    → IsDelay
        (if cfg.jitters then 2 * cfg.max_delay else cfg.max_delay)
        exp
        (with_jitter s cfg attempt exp)
with_jitter-IsDelay s cfg attempt none d small = panics
with_jitter-IsDelay s cfg attempt (some exp) d small = elim (Bool-cases cfg.jitters) [
  | inl on ↦
      let delay = min exp cfg.max_delay in
      let ms = as_millis delay in
      let j = s.jitter_ms ms in
      let few : ms ≤ 2 ^ 53 = omega arith in
      let jle : j ≤ ms = d.jitter-le ms few in
      let kle : s.draw attempt j ≤ 2 * j = d.draw-le attempt j (omega arith) in
      rw (on, jittered-sum ms j (s.draw attempt j) few jle kle)
        (sleeps_for exp (from_millis (ms + s.draw attempt j - j)) (omega arith))
  | inr off ↦ rw off (sleeps_for exp (min exp cfg.max_delay) (omega arith))
]

-- Where the sources are as documented and `max_delay` is at most 2^53 milliseconds, a delay panics
-- only where the multiplication of the base delay does. No other delay is longer than twice
-- `max_delay`, whatever the jitter, and none is longer than `max_delay` without jitter.
pub delay_after-IsDelay :
    (s : Sources) (cfg : RetryConfig) (attempt : ℕ)
    → AreDocumented s
    → cfg.max_delay ≤ 2 ^ 53 * 1_000_000
    → IsDelay
        (if cfg.jitters then 2 * cfg.max_delay else cfg.max_delay)
        (s.scale cfg.base_delay attempt)
        (delay_after s cfg attempt)
unfolding delay_after
delay_after-IsDelay s cfg attempt d small =
    with_jitter-IsDelay s cfg attempt (s.scale cfg.base_delay attempt) d small
