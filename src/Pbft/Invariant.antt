-- ===== src/Pbft/Invariant.antt =====
-- libs/rust/core/src/consensus.rs: what holds of a node that is driven by messages.
use swarm_intelligence_netwo.Prelude.{
  ℕ, ◌≤◌, ◌<◌, ◌≡◌, ◌≢◌, none, List, [], ◌∷◌, arith, length, Distinct, Distinct-insert, is_some,
  true, string_eq,
}
use swarm_intelligence_netwo.Pbft.{
  NodeId, ConsensusMessage, proposal, prepare, commit, execute, idle, proposed, prepared, committed,
  executed, PbftConsensus, new, required, handle_proposal, handle_prepare, handle_commit,
  handle_execute, handle_message, run,
}

-- The phase tells what the votes and the proposal are, and votes are counted once.
pub record Inv (c : PbftConsensus) : Type 0 where
  pub idle_clear :
      c.phase ≡ idle → (c.prepare_votes ≡ []) × (c.commit_votes ≡ []) × (c.proposal_data ≡ none)
  pub proposed_open :
      c.phase ≡ proposed
      → (length c.prepare_votes < required c.total_nodes)
        × (c.commit_votes ≡ [])
        × (is_some c.proposal_data ≡ true)
  pub prepared_quorum :
      c.phase ≡ prepared
      → (required c.total_nodes ≤ length c.prepare_votes)
        × (length c.commit_votes < required c.total_nodes)
        × (is_some c.proposal_data ≡ true)
  pub committed_quorum :
      c.phase ≡ committed
      → (required c.total_nodes ≤ length c.prepare_votes)
        × (required c.total_nodes ≤ length c.commit_votes)
        × (is_some c.proposal_data ≡ true)
  pub never_executed : c.phase ≢ executed
  pub prepares_distinct : Distinct c.prepare_votes
  pub commits_distinct : Distinct c.commit_votes

pub new-Inv : (node_id : NodeId) (total : ℕ) → Inv (new node_id total)
unfolding new
new-Inv node_id total = ground arith

handle_proposal-Inv :
    (id : ℕ) (payload : List ℕ) (proposer : NodeId) (c : PbftConsensus)
    → Inv c
    → Inv (handle_proposal id payload proposer c).0
unfolding handle_proposal
handle_proposal-Inv id payload proposer c v = ground arith

handle_prepare-Inv :
    (id : ℕ) (node : NodeId) (c : PbftConsensus) → Inv c → Inv (handle_prepare id node c).0
unfolding handle_prepare
handle_prepare-Inv id node c v =
    ground (arith, Distinct-insert node c.prepare_votes v.prepares_distinct)

handle_commit-Inv :
    (id : ℕ) (node : NodeId) (c : PbftConsensus) → Inv c → Inv (handle_commit id node c).0
unfolding handle_commit
handle_commit-Inv id node c v =
    ground (arith, Distinct-insert node c.commit_votes v.commits_distinct)

handle_execute-Inv : (id : ℕ) (c : PbftConsensus) → Inv c → Inv (handle_execute id c).0
unfolding handle_execute
handle_execute-Inv id c v = ground arith

pub handle_message-Inv :
    (m : ConsensusMessage) (c : PbftConsensus) → Inv c → Inv (handle_message m c).0
unfolding handle_message
handle_message-Inv (proposal id payload proposer) c v = handle_proposal-Inv id payload proposer c v
handle_message-Inv (prepare id node) c v = handle_prepare-Inv id node c v
handle_message-Inv (commit id node) c v = handle_commit-Inv id node c v
handle_message-Inv (execute id) c v = handle_execute-Inv id c v

pub run-Inv : (ms : List ConsensusMessage) (c : PbftConsensus) → Inv c → Inv (run ms c)
unfolding run
run-Inv [] c v = v
run-Inv (m ∷ ms) c v = run-Inv ms (handle_message m c).0 (handle_message-Inv m c v)

-- A node that has only handled messages since it was made, in any order and from anyone, satisfies
-- the invariant: an idle node holds no votes and no proposal; a proposed one has fewer prepare
-- votes than `required` and no commit vote; a prepared one has `required` prepare votes and fewer
-- commit votes; a committed one has `required` of both; the phase is never seen as executed; and
-- no node is counted twice.
pub run-new-Inv :
    (node_id : NodeId) (total : ℕ) (ms : List ConsensusMessage) → Inv (run ms (new node_id total))
run-new-Inv node_id total ms = run-Inv ms (new node_id total) (new-Inv node_id total)
