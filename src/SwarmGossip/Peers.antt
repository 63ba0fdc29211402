-- ===== src/SwarmGossip/Peers.antt =====
-- services/swarm-gossip/src/main.rs: to whom a node sends.
use swarm_intelligence_netwo.Prelude.{
  ℕ, min, String, ◌≡◌, refl, sym, ap, ◌∙◌, false, List, [], ◌∷◌, arith, string_eq, nat_eq, pair_eq,
  contains, contains-insert, length,
}
use swarm_intelligence_netwo.Gossip.{Sampler}
use swarm_intelligence_netwo.SwarmGossip.{GossipState, add_peer, random_fanout}

unfoldable pub add_peers : List String → GossipState → GossipState
add_peers [] s = s
add_peers (p ∷ ps) s = add_peers ps (add_peer p s)

add_peer_self :
    (p : String) (s : GossipState)
    → contains s.peers s.node_id ≡ false
    → (contains (add_peer p s).peers (add_peer p s).node_id ≡ false)
      × ((add_peer p s).node_id ≡ s.node_id)
unfolding add_peer
add_peer_self p s h = ground (
  arith,
  h,
  contains-insert p s.node_id s.peers,
  string_eq.equal_iff p s.node_id,
  string_eq.equal_iff s.node_id p,
)

add_peers_self :
    (ps : List String) (s : GossipState)
    → contains s.peers s.node_id ≡ false
    → (contains (add_peers ps s).peers (add_peers ps s).node_id ≡ false)
      × ((add_peers ps s).node_id ≡ s.node_id)
unfolding add_peers
add_peers_self [] s h = (h, refl)
add_peers_self (p ∷ ps) s h =
    let (apart, same) = add_peer_self p s h in
    let (apart', same') = add_peers_self ps (add_peer p s) apart in (apart', same' ∙ same)

module _ {Rng : Type 0} ⦃sampler : Sampler Rng⦄ where
  -- A node that is not among its own peers, and that then hears of any names, its own among them,
  -- sends to `fanout` of the names it holds or to all where there are fewer, and not to itself.
  pub random_fanout_self :
      (g : Rng) (fanout : ℕ) (ps : List String) (s : GossipState)
      → contains s.peers s.node_id ≡ false
      → let s' = add_peers ps s in
        let out = random_fanout g fanout s' in
        (length out ≡ min fanout (length s'.peers)) × (contains out s.node_id ≡ false)
  unfolding random_fanout contains
  random_fanout_self g fanout ps s h =
      let (apart, same) = add_peers_self ps s h in
      let s' = add_peers ps s in
      let not_me : contains s'.peers s.node_id ≡ false =
        ap (λ (n : String). contains s'.peers n) (sym same) ∙ apart in
      ground (
        arith,
        not_me,
        sampler.length-choose g fanout s'.peers,
        sampler.choose-Subset g fanout s'.peers s.node_id,
      )
