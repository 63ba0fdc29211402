-- ===== src/SensorGateway/NatsPool.antt =====
-- services/sensor-gateway/src/nats_pool.rs: the pool of connections. `C` stands for a client. The
-- semaphore bounds how many publications run at a time and does not
-- choose the connection; `get_connection` holds its lock from start to end.
use native.Mathlib.Nat.{mod-lt, mod-add-mod}
use swarm_intelligence_netwo.Prelude.{
  ℕ, zero, suc, ◌+◌, ◌%◌, ◌<◌, String, ◌≡◌, refl, sym, ap, ◌∙◌, Bool, true, false, Option, none,
  some, List, [], ◌∷◌, arith, if◌then◌else◌, string_eq, nat_eq, pair_eq, length, get_elem?,
}

pub record NatsPool (C : Type 0) : Type 0 where
  pub connections : List C
  pub next_index : ℕ

add-zero_sym : (n : ℕ) → n ≡ n + 0
add-zero_sym n = omega arith

one_more : (n i : ℕ) → n + 1 + i ≡ n + suc i
one_more n i = omega arith

abbrev pub with_first :
    String × List ℕ → List (String × List ℕ) × Bool → List (String × List ℕ) × Bool
with_first m (sent, done) = (m ∷ sent, done)

-- The messages that the client takes, up to the first that it refuses, and whether it took all.
unfoldable pub take_all :
    (String × List ℕ → Bool) → List (String × List ℕ) → List (String × List ℕ) × Bool
take_all accepts [] = ([], true)
take_all accepts (m ∷ messages) =
    let rest = with_first m (take_all accepts messages) in if accepts m then rest else ([], false)

module _ {C : Type 0} where
  -- The clients that `async_nats::connect` gave; a failed connection is the error of `new`.
  abbrev pub all_connected : List (Option C) → Option (List C)
  all_connected [] = some []
  all_connected (none ∷ cs) = none
  all_connected (some c ∷ cs) = elim (all_connected cs) [ none ↦ none | some all ↦ some (c ∷ all) ]

  unfoldable pub new : List (Option C) → Option (NatsPool C)
  new attempts = elim (all_connected attempts) [
    | none ↦ none
    | some all ↦ some (record { connections = all; next_index = 0 })
  ]

  -- `none` is a panic: the remainder by zero of an empty pool.
  unfoldable pub get_connection : NatsPool C → Option (C × NatsPool C)
  get_connection p =
      let n = length p.connections in
      elim (get_elem? p.connections (p.next_index % n)) [
        | none ↦ none
        | some c ↦ some (c, record p { next_index = (p.next_index + 1) % n })
      ]

  -- The pool after it, and what is handed to which client. With no connection there is no permit
  -- either, and the call waits for good: `none`.
  unfoldable pub publish :
      String → List ℕ → NatsPool C → Option (NatsPool C × (C × String × List ℕ))
  publish subject payload p = elim (get_connection p) [
    | none ↦ none
    | some (c, p') ↦ some (p', (c, subject, payload))
  ]

  -- A batch goes to one client. `accepts` says which messages the client takes.
  unfoldable pub publish_batch :
      (C → String × List ℕ → Bool)
      → List (String × List ℕ)
      → NatsPool C
      → Option (NatsPool C × (C × List (String × List ℕ) × Bool))
  publish_batch accepts messages p = elim (get_connection p) [
    | none ↦ none
    | some (c, p') ↦ let (sent, done) = take_all (accepts c) messages in some (p', (c, sent, done))
  ]

  unfoldable pub size : NatsPool C → ℕ
  size p = length p.connections

  -- `k` calls of `get_connection`, and the connections that they got.
  unfoldable pub draw : ℕ → NatsPool C → Option (List C)
  draw zero p = some []
  draw (suc k) p = elim (get_connection p) [
    | none ↦ none
    | some (c, p') ↦ elim (draw k p') [ none ↦ none | some cs ↦ some (c ∷ cs) ]
  ]

  -- The connection that comes `i` places after the next one.
  abbrev pub after_next : ℕ → NatsPool C → Option C
  after_next i p = get_elem? p.connections ((p.next_index + i) % length p.connections)

  get_elem-in : (xs : List C) (i : ℕ) → i < length xs → (x : C) × (get_elem? xs i ≡ some x)
  get_elem-in [] i h = absurd (omega arith)
  get_elem-in (x ∷ xs) zero h = (x, refl)
  get_elem-in (x ∷ xs) (suc i) h = get_elem-in xs i (omega arith)

  turn :
      (k : ℕ) (p p' : NatsPool C) (x : C) (cs : List C)
      → p' ≡ record p { next_index = (p.next_index + 1) % length p.connections }
      → get_elem? p.connections (p.next_index % length p.connections) ≡ some x
      → ((i : ℕ) → i < k → get_elem? cs i ≡ after_next i p')
      → (i : ℕ) → i < suc k
      → get_elem? (x ∷ cs) i ≡ after_next i p
  turn k p p' x cs moved found turns zero h =
      sym found
      ∙ ap (λ (j : ℕ). get_elem? p.connections (j % length p.connections))
          (add-zero_sym p.next_index)
  turn k p p' x cs moved found turns (suc i) h =
      let n = length p.connections in
      let place : ((p.next_index + 1) % n + i) % n ≡ (p.next_index + suc i) % n =
        mod-add-mod (p.next_index + 1) n i ∙ ap (λ (j : ℕ). j % n) (one_more p.next_index i) in
      turns i (omega arith)
      ∙ ap (λ (q : NatsPool C). after_next i q) moved
      ∙ ap (λ (j : ℕ). get_elem? p.connections j) place

  pub get_connection-some :
      (p : NatsPool C)
      → 0 < length p.connections
      → (c : C) × (p' : NatsPool C) × (get_connection p ≡ some (c, p'))
        × (p'.connections ≡ p.connections)
  unfolding get_connection
  get_connection-some p some_connection =
      let n = length p.connections in
      let (x, found) =
        get_elem-in p.connections (p.next_index % n) (mod-lt p.next_index some_connection) in
      (x, record p { next_index = (p.next_index + 1) % n }, rw (found, get_connection) refl, refl)

  -- A pool with a connection never panics, and goes around its connections: of any number of draws, the
  -- one after `i` others gets the connection `i` places after the next one.
  pub draw-in_turn :
      (k : ℕ) (p : NatsPool C)
      → 0 < length p.connections
      → (cs : List C) × (draw k p ≡ some cs)
        × (length cs ≡ k)
        × ((i : ℕ) → i < k → get_elem? cs i ≡ after_next i p)
  unfolding draw get_connection
  draw-in_turn zero p some_connection = ([], refl, refl, λ i h. absurd (omega arith))
  draw-in_turn (suc k) p some_connection =
      let n = length p.connections in
      let (x, found) =
        get_elem-in p.connections (p.next_index % n) (mod-lt p.next_index some_connection) in
      let p' = record p { next_index = (p.next_index + 1) % n } in
      let got : get_connection p ≡ some (x, p') = rw (found, get_connection) refl in
      let (cs, drawn, long, turns) = draw-in_turn k p' some_connection in
      (x ∷ cs, rw (got, draw, drawn) refl, ap suc long, turn k p p' x cs refl found turns)
