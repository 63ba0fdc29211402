-- ===== src/Resilience/Breaker/Recovery.antt =====
-- libs/rust/core/src/resilience.rs: an open breaker blocks calls until its timeout, and then closes
-- after enough trials.
use swarm_intelligence_netwo.Prelude.{
  ℕ, suc, ◌+◌, ◌-◌, ◌≤◌, ◌<◌, ◌≡◌, refl, true, false, List, [], ◌∷◌, map, arith, nat_eq, string_eq,
  pair_eq, length, replicate, All,
}
use swarm_intelligence_netwo.Resilience.Breaker.{
  closed, half_open, opened, CircuitBreaker, admit, on_success, Result, ok, circuit_open, exec,
}
use swarm_intelligence_netwo.Resilience.Breaker.Invariant.{Inv}

admit_early :
    (now t : ℕ) (b : CircuitBreaker)
    → b.state ≡ opened t
    → now - t < b.open_timeout
    → admit now b ≡ (b, false)
unfolding admit
admit_early now t b h early = ground arith

admit_late :
    (now t : ℕ) (b : CircuitBreaker)
    → b.state ≡ opened t
    → b.open_timeout ≤ now - t
    → admit now b ≡ (record b { state = half_open }, true)
unfolding admit
admit_late now t b h late = ground arith

admit_half_open : (now : ℕ) (b : CircuitBreaker) → b.state ≡ half_open → admit now b ≡ (b, true)
unfolding admit
admit_half_open now b h = ground arith

abbrev recovered : CircuitBreaker → CircuitBreaker
recovered b = record b { state = closed; failures = 0; half_open_successes = 0 }

abbrev tried : CircuitBreaker → CircuitBreaker
tried b = record b { half_open_successes = b.half_open_successes + 1 }

on_success_last :
    (b : CircuitBreaker)
    → Inv b
    → b.state ≡ half_open
    → b.half_open_successes + 1 ≡ b.required_half_open_successes
    → on_success b ≡ recovered b
unfolding on_success
on_success_last b v h q = ground arith

on_success_early :
    (b : CircuitBreaker)
    → Inv b
    → b.state ≡ half_open
    → b.half_open_successes + 1 < b.required_half_open_successes
    → on_success b ≡ tried b
unfolding on_success
on_success_early b v h q = ground arith

tried-Inv :
    (b : CircuitBreaker)
    → Inv b
    → b.state ≡ half_open
    → b.half_open_successes + 1 < b.required_half_open_successes
    → Inv (tried b)
tried-Inv b v h q = grind arith

-- A guarded call: when it starts, when it is done, and what the operation gives if it is run.
pub record Call {ℓ κ} (T : Type ℓ) (E : Type κ) : Type (ℓ ⊔ κ) where
  pub start : ℕ
  pub done : ℕ
  pub result : Result T E

module _ {ℓ κ} {T : Type ℓ} {E : Type κ} where
  -- Calls one after the other, and what they return.
  unfoldable pub exec_all : List (Call T E) → CircuitBreaker → CircuitBreaker × List (Result T E)
  exec_all [] b = (b, [])
  exec_all (c ∷ cs) b =
      let (b', r) = exec c.start c.done c.result b in
      let (last, rs) = exec_all cs b' in (last, r ∷ rs)

  -- Calls that start before an open breaker's timeout has passed are all refused, whatever they
  -- would have given, and leave the breaker as it is.
  pub exec_all-blocked :
      (t : ℕ) (cs : List (Call T E)) (b : CircuitBreaker)
      → b.state ≡ opened t
      → All (λ c. c.start - t < b.open_timeout) cs
      → exec_all cs b ≡ (b, replicate (length cs) circuit_open)
  unfolding exec_all exec
  exec_all-blocked t [] b h early = refl
  exec_all-blocked t (c ∷ cs) b h (e, es) =
      rw (admit_early c.start t b h e) (rw (exec_all-blocked t cs b h es) refl)

abbrev probing : CircuitBreaker → CircuitBreaker
probing b = record b { state = half_open }

probing-Inv : (t : ℕ) (b : CircuitBreaker) → Inv b → b.state ≡ opened t → Inv (probing b)
probing-Inv t b i h = ground (arith, i.open_no_trials t h)

module _ {ℓ κ} {T : Type ℓ} (E : Type κ) where
  -- A call whose operation succeeds.
  abbrev pub good : ℕ × ℕ × T → Call T E
  good (start, done, v) = record { start = start; done = done; result = ok v }

  trials_close :
      (c : ℕ × ℕ × T) (cs : List (ℕ × ℕ × T)) (b : CircuitBreaker)
      → Inv b
      → b.state ≡ half_open
      → b.half_open_successes + length (c ∷ cs) ≡ b.required_half_open_successes
      → (exec_all (map good (c ∷ cs)) b).0 ≡ recovered b
  unfolding exec_all exec
  trials_close (start, done, v) [] b i h q =
      rw (admit_half_open start b h, exec_all) (on_success_last b i h (omega arith))
  trials_close (start, done, v) (c ∷ cs) b i h q =
      rw (admit_half_open start b h, exec_all)
        (rw (on_success_early b i h (omega arith))
          (trials_close c cs (tried b) (tried-Inv b i h (omega arith)) h (omega arith)))

  -- An open breaker that satisfies the invariant, and then gets as many calls as it requires, one
  -- after the other and all successful, the first of which starts when its timeout has passed, is
  -- closed after them with no failures and no trials counted.
  pub exec_all-recovers :
      (t : ℕ) (start done : ℕ) (x : T) (cs : List (ℕ × ℕ × T)) (b : CircuitBreaker)
      → Inv b
      → b.state ≡ opened t
      → b.open_timeout ≤ start - t
      → suc (length cs) ≡ b.required_half_open_successes
      → (exec_all (map good ((start, done, x) ∷ cs)) b).0 ≡ recovered b
  unfolding exec_all exec
  exec_all-recovers t start done x cs b i h late q =
      rw (admit_late start t b h late, exec_all)
        (rw (admit_half_open start (probing b) refl, exec_all) at
          (trials_close (start, done, x) cs (probing b) (probing-Inv t b i h) refl
            (ground (arith, i.open_no_trials t h))))
