-- ===== src/Gossip/Once.antt =====
-- libs/rust/core/src/gossip.rs: duplicates, and what the statistics count.
use swarm_intelligence_netwo.Prelude.{
  ℕ, suc, ◌+◌, ◌*◌, ◌^◌, ◌≤◌, ◌<◌, min, String, ◌≡◌, refl, ap, inl, inr, Bool, true, false, ◌||◌,
  List, [], ◌∷◌, ◌++◌, arith, leb, ◌==◌, string_eq, nat_eq, pair_eq, Bool-cases, u8, contains,
  insert, contains-insert, length, length-append, length-map,
}
use swarm_intelligence_netwo.Gossip.{GossipMessage, GossipEngine, Sampler, Sent, to_all, ingest}

-- A copy of a message with this id is among what is sent.
abbrev pub sends : String → Sent → Bool
sends id [] = false
sends id ((peer, msg) ∷ out) = msg.id == id || sends id out

sends-append : (id : String) (xs ys : Sent) → sends id (xs ++ ys) ≡ (sends id xs || sends id ys)
sends-append id [] ys = refl
sends-append id ((p, m) ∷ xs) ys = ground (arith, sends-append id xs ys)

sends-to_all :
    (id : String) (msg : GossipMessage) (ps : List String)
    → (msg.id == id) ≡ false
    → sends id (to_all msg ps) ≡ false
sends-to_all id msg [] other = refl
sends-to_all id msg (p ∷ ps) other = ground (arith, sends-to_all id msg ps)

length-to_all : (msg : GossipMessage) (ps : List String) → length (to_all msg ps) ≡ length ps
length-to_all msg ps = length-map (λ p. (p, msg)) ps

-- Messages that arrive one after the other, each with the random source of its turn.
abbrev pub Arrivals : Type 0 → Type 0
Arrivals Rng = List (Rng × GossipMessage)

module _ {Rng : Type 0} ⦃sampler : Sampler Rng⦄ where
  unfoldable pub ingest_all : Arrivals Rng → GossipEngine → GossipEngine × Sent
  ingest_all [] e = (e, [])
  ingest_all ((g, msg) ∷ ms) e =
      let (e', out) = ingest g msg e in let (e'', rest) = ingest_all ms e' in (e'', out ++ rest)

  seen-ingest :
      (g : Rng) (msg : GossipMessage) (e : GossipEngine)
      → (ingest g msg e).0.seen ≡ insert msg.id e.seen
  unfolding ingest insert
  seen-ingest g msg e = ground arith

  ingest-silent :
      (g : Rng) (msg : GossipMessage) (e : GossipEngine) (id : String)
      → contains e.seen id ≡ true
      → sends id (ingest g msg e).1 ≡ false
  unfolding ingest
  ingest-silent g msg e id h = ground (
    arith,
    string_eq.equal_iff msg.id id,
    sends-to_all id (record msg { hops = u8 (msg.hops + 1) })
        (sampler.choose g (min e.fanout (length e.peers)) e.peers),
  )

  -- Once an engine has seen an id, no message with that id is ever sent on again, whatever
  -- arrives.
  pub ingest_all-silent :
      (ms : Arrivals Rng) (e : GossipEngine) (id : String)
      → contains e.seen id ≡ true
      → sends id (ingest_all ms e).1 ≡ false
  unfolding ingest_all
  ingest_all-silent [] e id h = refl
  ingest_all-silent ((g, msg) ∷ ms) e id h =
      let e' = (ingest g msg e).0 in
      let still : contains e'.seen id ≡ true =
        rw seen-ingest (ground (arith, contains-insert msg.id id e.seen)) in
      ground (
        arith,
        sends-append id (ingest g msg e).1 (ingest_all ms e').1,
        ingest-silent g msg e id h,
        ingest_all-silent ms e' id still,
      )

-- What the statistics, the ids and the copies amount to after `n` arrivals.
pub record IsTally (n : ℕ) (e e' : GossipEngine) (out : Sent) : Type 0 where
  pub received_all : e'.stats.received ≡ e.stats.received + n
  pub new_or_duplicate :
      e'.stats.duplicates + length e'.seen ≡ e.stats.duplicates + length e.seen + n
  pub forwarded_all : e'.stats.forwarded ≡ e.stats.forwarded + length out
  pub fanout_at_most : length out + e.fanout * length e.seen ≤ e.fanout * length e'.seen
  pub at_most_fanout : length out ≤ n * e.fanout
  pub seen_stay : length e.seen ≤ length e'.seen
  pub same_fanout : e'.fanout ≡ e.fanout

-- The counters do not wrap around in `n` arrivals.
abbrev pub HasRoom : ℕ → GossipEngine → Type 0
HasRoom n e =
    (e.stats.received + n < 2 ^ 64)
    × (e.stats.duplicates + n < 2 ^ 64)
    × (e.stats.forwarded + n * e.fanout < 2 ^ 64)

mul-suc-right : (m n : ℕ) → m * suc n ≡ m * n + m
mul-suc-right m n = omega arith

mul-suc-left : (m n : ℕ) → suc m * n ≡ m * n + n
mul-suc-left m n = omega arith

IsTally-step :
    (n : ℕ) (e e' e'' : GossipEngine) (out rest : Sent)
    → IsTally 1 e e' out
    → IsTally n e' e'' rest
    → IsTally (suc n) e e'' (out ++ rest)
IsTally-step n e e' e'' out rest s t =
    let same : n * e'.fanout ≡ n * e.fanout = ap (λ (f : ℕ). n * f) s.same_fanout in
    let before : e'.fanout * length e'.seen ≡ e.fanout * length e'.seen =
      ap (λ (f : ℕ). f * length e'.seen) s.same_fanout in
    let after : e'.fanout * length e''.seen ≡ e.fanout * length e''.seen =
      ap (λ (f : ℕ). f * length e''.seen) s.same_fanout in
    ground (arith, length-append out rest, mul-suc-left n e.fanout, same, before, after)

room_after :
    (n : ℕ) (e e' : GossipEngine) (out : Sent)
    → HasRoom (suc n) e
    → IsTally 1 e e' out
    → HasRoom n e'
room_after n e e' out room one =
    let same : n * e'.fanout ≡ n * e.fanout = ap (λ (f : ℕ). n * f) one.same_fanout in
    ground (arith, mul-suc-left n e.fanout, same)

module _ {Rng : Type 0} ⦃sampler : Sampler Rng⦄ where
  IsTally-ingest :
      (g : Rng) (msg : GossipMessage) (e : GossipEngine)
      → HasRoom 1 e
      → IsTally 1 e (ingest g msg e).0 (ingest g msg e).1
  unfolding ingest insert
  IsTally-ingest g msg e (r, d, f) =
      let next = record msg { hops = u8 (msg.hops + 1) } in
      let chosen = sampler.choose g (min e.fanout (length e.peers)) e.peers in
      let few : length (to_all next chosen) ≤ e.fanout = omega (
        arith,
        length-to_all next chosen,
        sampler.length-choose g (min e.fanout (length e.peers)) e.peers,
      ) in
      elim (Bool-cases (contains e.seen msg.id)) [
        | inl known ↦ rw known (ground (arith, r, d))
        | inr fresh ↦ rw fresh (elim (Bool-cases (leb msg.ttl msg.hops)) [
          | inl spent ↦ rw spent (ground (arith, r, mul-suc-right e.fanout (length e.seen)))
          | inr alive ↦
              rw alive (ground (arith, r, d, f, few, mul-suc-right e.fanout (length e.seen)))
        ])
      ]

  -- While `n` messages arrive and no counter is full, the engine receives `n`; each is either a
  -- duplicate or adds one id to those seen; what is counted as forwarded is what is sent; and at
  -- most `fanout` copies are sent for each id that is new.
  pub IsTally-ingest_all :
      (ms : Arrivals Rng) (e : GossipEngine)
      → HasRoom (length ms) e
      → IsTally (length ms) e (ingest_all ms e).0 (ingest_all ms e).1
  unfolding ingest_all
  IsTally-ingest_all [] e room = ground arith
  IsTally-ingest_all ((g, msg) ∷ ms) e room =
      let one = IsTally-ingest g msg e (ground (arith, mul-suc-left (length ms) e.fanout)) in
      let (e', out) = ingest g msg e in
      IsTally-step (length ms) e e' (ingest_all ms e').0 out (ingest_all ms e').1 one
        (IsTally-ingest_all ms e' (room_after (length ms) e e' out room one))
