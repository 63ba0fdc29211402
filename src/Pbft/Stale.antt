-- ===== src/Pbft/Stale.antt =====
-- libs/rust/core/src/consensus.rs: `propose` keeps the votes of the proposal that it replaces.
use swarm_intelligence_netwo.Prelude.{
  ℕ, ◌≡◌, ◌⊎◌, some, List, arith, nat_eq, string_eq, pair_eq, length-insert,
}
use swarm_intelligence_netwo.Pbft.{
  NodeId, commit, prepared, committed, PbftConsensus, propose, handle_prepare,
}
use swarm_intelligence_netwo.Pbft.Invariant.{Inv}

-- A node that satisfies the invariant and is prepared or committed makes a new proposal. Then the
-- first prepare for that proposal, from any one node, makes it prepared and lets it send a commit,
-- however many votes `required` asks for: the older proposal's prepare votes are still counted.
pub stale_votes_prepare :
    (payload : List ℕ) (node : NodeId) (c : PbftConsensus)
    → Inv c
    → (c.phase ≡ prepared) ⊎ (c.phase ≡ committed)
    → let c1 = (propose payload c).0 in
      let (c2, reply) = handle_prepare c1.proposal_id node c1 in
      (c2.phase ≡ prepared) × (reply ≡ some (commit c1.proposal_id c.node_id))
unfolding propose handle_prepare
stale_votes_prepare payload node c v h = ground (arith, length-insert node c.prepare_votes)
