-- ===== src/Gossip/Hops.antt =====
-- libs/rust/core/src/gossip.rs: to whom a message goes on, and how far.
use swarm_intelligence_netwo.Prelude.{
  ℕ, ◌+◌, ◌^◌, ◌<◌, min, String, ◌≡◌, refl, ap, false, List, [], ◌∷◌, arith, string_eq, nat_eq,
  pair_eq, u8, contains, Distinct, Subset, length, All,
}
use swarm_intelligence_netwo.Gossip.{GossipMessage, GossipEngine, Sampler, Sent, to_all, ingest}

abbrev pub receivers : Sent → List String
receivers [] = []
receivers ((peer, msg) ∷ out) = peer ∷ receivers out

abbrev pub IsCopy : GossipMessage → String × GossipMessage → Type 0
IsCopy msg (peer, next) = next ≡ record msg { hops = msg.hops + 1 }

receivers-to_all : (msg : GossipMessage) (ps : List String) → receivers (to_all msg ps) ≡ ps
receivers-to_all msg [] = refl
receivers-to_all msg (p ∷ ps) = ap (◌∷◌ p) (receivers-to_all msg ps)

All-to_all :
    (msg next : GossipMessage) (ps : List String)
    → next ≡ record msg { hops = msg.hops + 1 }
    → All (IsCopy msg) (to_all next ps)
All-to_all msg next [] e = tt
All-to_all msg next (p ∷ ps) e = (e, All-to_all msg next ps e)

module _ {Rng : Type 0} ⦃sampler : Sampler Rng⦄ where
  sent_on :
      (g : Rng) (msg : GossipMessage) (e : GossipEngine)
      → contains e.seen msg.id ≡ false
      → msg.hops < msg.ttl
      → (ingest g msg e).1
        ≡ to_all
            (record msg { hops = u8 (msg.hops + 1) })
            (sampler.choose g (min e.fanout (length e.peers)) e.peers)
  unfolding ingest
  sent_on g msg e new alive = rw (new) (ground arith)

  -- A message that an engine sees for the first time, and that has hops left of a `u8` of them,
  -- goes on to distinct peers of the engine, to `fanout` of them or to all where there are fewer,
  -- each copy the message with one hop more.
  pub ingest_new :
      (g : Rng) (msg : GossipMessage) (e : GossipEngine)
      → contains e.seen msg.id ≡ false
      → msg.hops < msg.ttl
      → msg.ttl < 2 ^ 8
      → Distinct e.peers
      → let out = (ingest g msg e).1 in
        (length (receivers out) ≡ min e.fanout (length e.peers))
        × Distinct (receivers out)
        × Subset (receivers out) e.peers
        × All (IsCopy msg) out
  ingest_new g msg e new alive small d =
      let n = min e.fanout (length e.peers) in
      let one_more : record msg { hops = u8 (msg.hops + 1) } ≡ record msg { hops = msg.hops + 1 } =
        ap (λ (h : ℕ). record msg { hops = h }) (omega arith) in
      rw (sent_on g msg e new alive, receivers-to_all)
        (
          omega (arith, sampler.length-choose g n e.peers),
          sampler.choose-Distinct g n e.peers d,
          sampler.choose-Subset g n e.peers,
          All-to_all msg (record msg { hops = u8 (msg.hops + 1) }) (sampler.choose g n e.peers)
              one_more,
        )
