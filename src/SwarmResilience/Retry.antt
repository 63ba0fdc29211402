-- ===== src/SwarmResilience/Retry.antt =====
-- libs/rust/resilience/src/lib.rs: `retry_async` against that of libs/rust/core/src/resilience.rs.
use native.Mathlib.Nat.{add-zero}
use swarm_intelligence_netwo.Prelude.{
  ℕ, zero, suc, ◌+◌, ◌-◌, ◌≤◌, ◌<◌, ◌≡◌, refl, sym, ap, ◌∙◌, inl, inr, Option, none, some, List,
  arith, ltb, if◌then◌else◌, string_eq, nat_eq, pair_eq, length,
}
use swarm_intelligence_netwo.Resilience.Retry.{
  Result, ok, err, Outcome, done, panic, Sources, RetryConfig, delay_after,
}
use swarm_intelligence_netwo.Resilience.Retry as Core
use swarm_intelligence_netwo.Resilience.Retry.Laws.{Result-cases, Comes, retry_async-Ends}
use swarm_intelligence_netwo.SwarmResilience.{retry_rounds, retry_async}

module _ {ℓ κ} {T : Type ℓ} {E : Type κ} where
  -- The loop of the gateways returns a result, after at least `n` sleeps.
  pub record Returns (op : ℕ → Result T E) (n : ℕ) (end : Outcome T E × ℕ) : Type (ℓ ⊔ κ) where
    pub result : Result T E
    pub total : ℕ
    pub ends : end ≡ (done result, total)
    pub slept : n ≤ total

  retry_rounds-ok :
      (op : ℕ → Result T E) (left i n : ℕ) (last : Option E) (v : T)
      → op i ≡ ok v
      → retry_rounds op (suc left) i last n ≡ (done (ok v), n)
  unfolding retry_rounds
  retry_rounds-ok op left i n last v h = rw (h, retry_rounds) refl

  retry_rounds-last :
      (op : ℕ → Result T E) (i n : ℕ) (last : Option E) (e : E)
      → op i ≡ err e
      → retry_rounds op 1 i last n ≡ (done (err e), n)
  unfolding retry_rounds
  retry_rounds-last op i n last e h = rw (h, retry_rounds) refl

  retry_rounds-again :
      (op : ℕ → Result T E) (left i n : ℕ) (last : Option E) (e : E)
      → op i ≡ err e
      → retry_rounds op (suc (suc left)) i last n
        ≡ retry_rounds op (suc left) (i + 1) (some e) (n + 1)
  unfolding retry_rounds
  retry_rounds-again op left i n last e h =
      let step : retry_rounds op (suc (suc left)) i last n
          ≡ retry_rounds op (suc left) (i + 1) (some e) (if ltb 0 (suc left) then n + 1 else n) =
        rw (h, retry_rounds) refl in
      step ∙ ap (λ (k : ℕ). retry_rounds op (suc left) (i + 1) (some e) k) (ground arith)

  retry_rounds_at :
      (op : ℕ → Result T E) (last : Option E) {a b i j m n : ℕ}
      → a ≡ b
      → i ≡ j
      → m ≡ n
      → retry_rounds op a i last m ≡ retry_rounds op b j last n
  retry_rounds_at op last e e' e'' = rw (e, e', e'') refl

  Returns-at :
      (op : ℕ → Result T E) (n m : ℕ) {x y : Outcome T E × ℕ}
      → n ≤ m
      → x ≡ y
      → Returns op m y
      → Returns op n x
  Returns-at op n m le e r = record {
    result = r.result;
    total = r.total;
    ends = e ∙ r.ends;
    slept = omega (arith, le, r.slept);
  }

  Returns-now : (op : ℕ → Result T E) (r : Result T E) (n : ℕ) → Returns op n (done r, n)
  Returns-now op r n = record { result = r; total = n; ends = refl; slept = omega arith }

  retry_rounds-Returns :
      (op : ℕ → Result T E) (left i n : ℕ) (last : Option E)
      → Returns op n (retry_rounds op (suc left) i last n)
  retry_rounds-Returns op zero i n last = elim (Result-cases (op i)) [
    | inl (v, h) ↦
        Returns-at op n n (omega arith) (retry_rounds-ok op 0 i n last v h)
          (Returns-now op (ok v) n)
    | inr (e, h) ↦
        Returns-at op n n (omega arith) (retry_rounds-last op i n last e h)
          (Returns-now op (err e) n)
  ]
  retry_rounds-Returns op (suc left) i n last = elim (Result-cases (op i)) [
    | inl (v, h) ↦
        Returns-at op n n (omega arith) (retry_rounds-ok op (suc left) i n last v h)
          (Returns-now op (ok v) n)
    | inr (e, h) ↦
        Returns-at op n (n + 1) (omega arith) (retry_rounds-again op left i n last e h)
          (retry_rounds-Returns op left (i + 1) (n + 1) (some e))
  ]

  -- After failed attempts alone the loop stands at the attempt after them.
  retry_rounds-failed :
      (op : ℕ → Result T E) (k left i n : ℕ) (last : Option E)
      → ((j : ℕ) → j < k → (e : E) × (op (i + j) ≡ err e))
      → (last' : Option E) × (retry_rounds op (k + suc left) i last n
          ≡ retry_rounds op (suc left) (i + k) last' (n + k))
  retry_rounds-failed op zero left i n last failed =
      (last, retry_rounds_at op last (omega arith) (omega arith) (omega arith))
  retry_rounds-failed op (suc k) left i n last failed =
      let (e, h) = failed 0 (omega arith) in
      let here : op i ≡ err e = rw (sym (add-zero i)) h in
      let (last', rest) =
        retry_rounds-failed op k left (i + 1) (n + 1) (some e)
          (λ j w. later i j (failed (suc j) (omega arith))) in
      (
        last',
        retry_rounds_at op last (omega arith) refl refl
            ∙ retry_rounds-again op (k + left) i n last e here
            ∙ retry_rounds_at op (some e) (omega arith) refl refl
            ∙ rest
            ∙ retry_rounds_at op last' refl (omega arith) (omega arith),
      )
    where
      later : (i j : ℕ) → (e : E) × (op (i + suc j) ≡ err e) → (e : E) × (op (i + 1 + j) ≡ err e)
      later i j (e, h) = (e, ap op (omega arith) ∙ h)

  -- How the loop of the gateways ends where that of the core library ends so after `sleeps` sleeps:
  -- with the same result after as many, or, where that one panics, with a result after more.
  abbrev pub EndsAlike : (ℕ → Result T E) → ℕ → Outcome T E → Outcome T E × ℕ → Type (ℓ ⊔ κ)
  EndsAlike op sleeps (done r) end = end ≡ (done r, sleeps)
  EndsAlike op sleeps panic end = Returns op (suc sleeps) end

  EndsAlike-done :
      (op : ℕ → Result T E) (k left : ℕ) (last : Option E) (r : Result T E)
      → op k ≡ r
      → ((e : E) → r ≡ err e → left ≡ 0)
      → retry_rounds op (suc left) k last k ≡ (done r, k)
  EndsAlike-done op k left last (ok v) h gave_up = retry_rounds-ok op left k k last v h
  EndsAlike-done op k left last (err e) h gave_up =
      retry_rounds_at op last (ap suc (gave_up e refl)) refl refl
      ∙ retry_rounds-last op k k last e h

  module _ (s : Sources) (cfg : RetryConfig) (op : ℕ → Result T E) where
    agreement :
        (k left : ℕ) (last : Option E) (outcome : Outcome T E)
        → cfg.max_retries ≡ k + left
        → Comes s cfg op k outcome
        → EndsAlike op k outcome (retry_rounds op (suc left) k last k)
    agreement k left last (done r) total (h, gave_up) =
        EndsAlike-done op k left last r h (λ e p. omega (arith, gave_up e p, total))
    agreement k zero last panic total (e, h, more, stops) = absurd (omega (arith, more, total))
    agreement k (suc left) last panic total (e, h, more, stops) =
        Returns-at op (suc k) (k + 1) (omega arith) (retry_rounds-again op left k k last e h)
          (retry_rounds-Returns op left (k + 1) (k + 1) (some e))

    Comes-at :
        (outcome : Outcome T E) {i j : ℕ}
        → j ≡ i
        → Comes s cfg op i outcome
        → Comes s cfg op j outcome
    Comes-at outcome e c = rw e c

    EndsAlike-at :
        (k : ℕ) (outcome : Outcome T E) {x y : Outcome T E × ℕ}
        → x ≡ y
        → EndsAlike op k outcome y
        → EndsAlike op k outcome x
    EndsAlike-at k outcome e a = rw e a

    -- With `max_retries` retries, `retry_async` of the core library ends after some sleeps. With one
    -- attempt more than that, `retry_async` of this library returns the same result of the same
    -- operation after as many sleeps; but where that of the core library panics, in the delay after a
    -- failed attempt, this one sleeps on and returns a result.
    pub retry_async-agrees :
        (outcome : Outcome T E) × (sleeps : List ℕ) × (Core.retry_async s cfg op
          ≡ some (outcome, sleeps))
        × EndsAlike op (length sleeps) outcome (retry_async op (suc cfg.max_retries))
    unfolding retry_async
    retry_async-agrees =
        let (outcome, sleeps, e, x) = retry_async-Ends s cfg op in
        let k = length sleeps in
        let left = cfg.max_retries - k in
        let total : cfg.max_retries ≡ k + left = omega (arith, x.within) in
        let (last, reached) = retry_rounds-failed op k left 0 0 none x.earlier in
        let first : suc cfg.max_retries ≡ k + suc left = omega (arith, total) in
        let same : 0 + k ≡ k = omega arith in
        let path : retry_rounds op (suc cfg.max_retries) 0 none 0
            ≡ retry_rounds op (suc left) k last k =
          retry_rounds_at op none first refl refl
          ∙ reached
          ∙ retry_rounds_at op last {a = suc left} refl same same in
        (
          outcome,
          sleeps,
          e,
          EndsAlike-at k outcome path
              (agreement k left last outcome total (Comes-at outcome (sym same) x.last)),
        )
