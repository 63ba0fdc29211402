-- ===== src/Pbft/Tests.antt =====
-- Runs of the state machine of libs/rust/core/src/consensus.rs on small groups.
use swarm_intelligence_netwo.Prelude.{
  ◌<◌, ◌≡◌, refl, inr, some, List, [], ◌∷◌, ◌++◌, map, arith, string_eq, nat_eq, pair_eq, contains,
  insert, Subset, length,
}
use swarm_intelligence_netwo.Pbft.{
  NodeId, ConsensusMessage, proposal, prepare, commit, execute, proposed, prepared, committed,
  PbftConsensus, new, propose, handle_prepare, handle_message, get_phase, run,
}
use swarm_intelligence_netwo.Pbft.Invariant.{Inv, new-Inv, run-new-Inv}
use swarm_intelligence_netwo.Pbft.Trace.{IsBacked, commits_for, prepares_for, committed-IsBacked}
use swarm_intelligence_netwo.Pbft.Agreement.{common, committed_nodes_share}
use swarm_intelligence_netwo.Pbft.Progress.{exchange, ballot, cleared, exchange-ballot}
use swarm_intelligence_netwo.Pbft.Stale.{stale_votes_prepare}

abbrev nodes : List NodeId
nodes = "n1" ∷ "n2" ∷ "n3" ∷ "n4" ∷ []

abbrev quorum_one : List NodeId
quorum_one = "n1" ∷ "n2" ∷ "n3" ∷ []

abbrev quorum_two : List NodeId
quorum_two = "n2" ∷ "n3" ∷ "n4" ∷ []

abbrev votes_of : List NodeId → List NodeId → List ConsensusMessage
votes_of ps cs = proposal 1 (7 ∷ []) "n1" ∷ (map (prepare 1) ps ++ map (commit 1) cs)

-- `proposal_flow`, the test of the source.
proposal_flow : get_phase (propose (1 ∷ 2 ∷ 3 ∷ []) (new "n1" 4)).0 ≡ proposed
unfolding propose new get_phase
proposal_flow = refl

one_committed : (run (votes_of quorum_one quorum_one) (new "n1" 4)).phase ≡ committed
unfolding run handle_message new insert
one_committed = refl

two_committed : (run (votes_of quorum_two quorum_two) (new "n2" 4)).phase ≡ committed
unfolding run handle_message new insert
two_committed = refl

-- A vote that is repeated is counted once.
repeated_votes : (run (votes_of ("n1" ∷ "n2" ∷ "n2" ∷ "n2" ∷ []) []) (new "n1" 4)).phase ≡ proposed
unfolding run handle_message new insert
repeated_votes = refl

run-new-Inv_example : Inv (run (votes_of quorum_one quorum_two) (new "n1" 4))
run-new-Inv_example = run-new-Inv "n1" 4 (votes_of quorum_one quorum_two)

committed-IsBacked_example :
    IsBacked 3 (run (votes_of quorum_one quorum_one) (new "n1" 4)).commit_votes (
      commits_for
        (run (votes_of quorum_one quorum_one) (new "n1" 4)).proposal_id
        (votes_of quorum_one quorum_one))
    × IsBacked 3 (run (votes_of quorum_one quorum_one) (new "n1" 4)).prepare_votes (
        prepares_for
          (run (votes_of quorum_one quorum_one) (new "n1" 4)).proposal_id
          (votes_of quorum_one quorum_one))
committed-IsBacked_example =
    committed-IsBacked "n1" 4 (votes_of quorum_one quorum_one) one_committed

one_inside :
    Subset
      (commits_for
        (run (votes_of quorum_one quorum_one) (new "n1" 4)).proposal_id
        (votes_of quorum_one quorum_one))
      nodes
unfolding run handle_message new insert commits_for contains
one_inside a h = ground arith

two_inside :
    Subset
      (commits_for
        (run (votes_of quorum_two quorum_two) (new "n2" 4)).proposal_id
        (votes_of quorum_two quorum_two))
      nodes
unfolding run handle_message new insert commits_for contains
two_inside a h = ground arith

committed_nodes_share_example :
    1
    < length (
        common
          (run (votes_of quorum_one quorum_one) (new "n1" 4)).commit_votes
          (run (votes_of quorum_two quorum_two) (new "n2" 4)).commit_votes)
committed_nodes_share_example =
    committed_nodes_share nodes 1 "n1" "n2" (votes_of quorum_one quorum_one)
      (votes_of quorum_two quorum_two) (omega arith) (omega arith) one_inside two_inside
      one_committed two_committed

exchange-ballot_example :
    exchange (ballot 1 (7 ∷ []) "n2" quorum_one quorum_two) (new "n1" 4)
    ≡ (cleared 1 (new "n1" 4), prepare 1 "n1" ∷ commit 1 "n1" ∷ execute 1 ∷ [])
unfolding new contains
exchange-ballot_example =
    exchange-ballot 1 (7 ∷ []) "n2" quorum_one quorum_two (new "n1" 4) (new-Inv "n1" 4) refl
      (refl, (refl, (refl, tt))) (refl, (refl, (refl, tt))) refl refl

abbrev committed_node : PbftConsensus
committed_node = run (votes_of quorum_one quorum_one) (new "n1" 4)

stale_votes_prepare_example :
    ((handle_prepare 2 "n4" (propose [] committed_node).0).0.phase ≡ prepared)
    × ((handle_prepare 2 "n4" (propose [] committed_node).0).1 ≡ some (commit 2 "n1"))
unfolding run handle_message new insert propose
stale_votes_prepare_example =
    stale_votes_prepare [] "n4" committed_node (run-new-Inv "n1" 4 (votes_of quorum_one quorum_one))
      (inr one_committed)
