-- ===== src/Pbft/Trace.antt =====
-- libs/rust/core/src/consensus.rs: the votes of a node against the messages that it was sent.
use swarm_intelligence_netwo.Prelude.{
  ℕ, ◌≤◌, ◌≡◌, refl, ap, ◌⊎◌, inl, true, List, [], ◌∷◌, arith, length, contains, Distinct, Subset,
  contains-insert, string_eq, nat_eq, ◌==◌, if◌then◌else◌,
}
use swarm_intelligence_netwo.Pbft.{
  NodeId, ConsensusMessage, proposal, prepare, commit, execute, committed, PbftConsensus, new,
  required, handle_proposal, handle_prepare, handle_commit, handle_execute, handle_message, run,
}
use swarm_intelligence_netwo.Pbft.Invariant.{Inv, handle_message-Inv, new-Inv, run-new-Inv}

-- Who sent a commit, or a prepare, for the proposal `id`.
unfoldable pub commits_for : ℕ → List ConsensusMessage → List NodeId
commits_for id [] = []
commits_for id (commit j node ∷ ms) =
    let rest = commits_for id ms in if j == id then node ∷ rest else rest
commits_for id (m ∷ ms) = commits_for id ms

unfoldable pub prepares_for : ℕ → List ConsensusMessage → List NodeId
prepares_for id [] = []
prepares_for id (prepare j node ∷ ms) =
    let rest = prepares_for id ms in if j == id then node ∷ rest else rest
prepares_for id (m ∷ ms) = prepares_for id ms

-- A vote that a message adds is the message's; any other was there, for the same proposal.
abbrev Added : (List NodeId) → ℕ → ℕ → List NodeId → NodeId → Type 0
Added before id id' sent a = ((contains before a ≡ true) × (id ≡ id')) ⊎ (contains sent a ≡ true)

handle_message-commit_votes :
    (m : ConsensusMessage) (c : PbftConsensus) (a : NodeId)
    → Inv c
    → contains (handle_message m c).0.commit_votes a ≡ true
    → Added c.commit_votes c.proposal_id
        (handle_message m c).0.proposal_id
        (commits_for (handle_message m c).0.proposal_id (m ∷ []))
        a
unfolding handle_message handle_proposal handle_prepare handle_commit handle_execute contains
    commits_for
handle_message-commit_votes (proposal id payload proposer) c a v h = ground arith
handle_message-commit_votes (prepare id node) c a v h = ground arith
handle_message-commit_votes (commit id node) c a v h =
    ground (arith, contains-insert node a c.commit_votes)
handle_message-commit_votes (execute id) c a v h = ground arith

handle_message-prepare_votes :
    (m : ConsensusMessage) (c : PbftConsensus) (a : NodeId)
    → Inv c
    → contains (handle_message m c).0.prepare_votes a ≡ true
    → Added c.prepare_votes c.proposal_id
        (handle_message m c).0.proposal_id
        (prepares_for (handle_message m c).0.proposal_id (m ∷ []))
        a
unfolding handle_message handle_proposal handle_prepare handle_commit handle_execute contains
    prepares_for
handle_message-prepare_votes (proposal id payload proposer) c a v h = ground arith
handle_message-prepare_votes (prepare id node) c a v h =
    ground (arith, contains-insert node a c.prepare_votes)
handle_message-prepare_votes (commit id node) c a v h = ground arith
handle_message-prepare_votes (execute id) c a v h = ground arith

contains-commits_for_cons :
    (id : ℕ) (m : ConsensusMessage) (ms : List ConsensusMessage) (a : NodeId)
    → (contains (commits_for id (m ∷ [])) a ≡ true) ⊎ (contains (commits_for id ms) a ≡ true)
    → contains (commits_for id (m ∷ ms)) a ≡ true
unfolding commits_for contains
contains-commits_for_cons id (proposal j payload proposer) ms a h = ground arith
contains-commits_for_cons id (prepare j node) ms a h = ground arith
contains-commits_for_cons id (commit j node) ms a h = ground arith
contains-commits_for_cons id (execute j) ms a h = ground arith

contains-prepares_for_cons :
    (id : ℕ) (m : ConsensusMessage) (ms : List ConsensusMessage) (a : NodeId)
    → (contains (prepares_for id (m ∷ [])) a ≡ true) ⊎ (contains (prepares_for id ms) a ≡ true)
    → contains (prepares_for id (m ∷ ms)) a ≡ true
unfolding prepares_for contains
contains-prepares_for_cons id (proposal j payload proposer) ms a h = ground arith
contains-prepares_for_cons id (prepare j node) ms a h = ground arith
contains-prepares_for_cons id (commit j node) ms a h = ground arith
contains-prepares_for_cons id (execute j) ms a h = ground arith

run-commit_votes :
    (ms : List ConsensusMessage) (c : PbftConsensus) (a : NodeId)
    → Inv c
    → contains (run ms c).commit_votes a ≡ true
    → Added c.commit_votes c.proposal_id
        (run ms c).proposal_id
        (commits_for (run ms c).proposal_id ms)
        a
unfolding run
run-commit_votes [] c a v h = inl (h, refl)
run-commit_votes (m ∷ ms) c a v h = ground (
  arith,
  run-commit_votes ms (handle_message m c).0 a (handle_message-Inv m c v) h,
  handle_message-commit_votes m c a v,
  contains-commits_for_cons (run ms (handle_message m c).0).proposal_id m ms a,
)

run-prepare_votes :
    (ms : List ConsensusMessage) (c : PbftConsensus) (a : NodeId)
    → Inv c
    → contains (run ms c).prepare_votes a ≡ true
    → Added c.prepare_votes c.proposal_id
        (run ms c).proposal_id
        (prepares_for (run ms c).proposal_id ms)
        a
unfolding run
run-prepare_votes [] c a v h = inl (h, refl)
run-prepare_votes (m ∷ ms) c a v h = ground (
  arith,
  run-prepare_votes ms (handle_message m c).0 a (handle_message-Inv m c v) h,
  handle_message-prepare_votes m c a v,
  contains-prepares_for_cons (run ms (handle_message m c).0).proposal_id m ms a,
)

handle_message-total_nodes :
    (m : ConsensusMessage) (c : PbftConsensus) → (handle_message m c).0.total_nodes ≡ c.total_nodes
unfolding handle_message handle_proposal handle_prepare handle_commit handle_execute
handle_message-total_nodes (proposal id payload proposer) c = ground arith
handle_message-total_nodes (prepare id node) c = ground arith
handle_message-total_nodes (commit id node) c = ground arith
handle_message-total_nodes (execute id) c = ground arith

pub run-total_nodes :
    (ms : List ConsensusMessage) (c : PbftConsensus) → (run ms c).total_nodes ≡ c.total_nodes
unfolding run
run-total_nodes [] c = refl
run-total_nodes (m ∷ ms) c =
    ground (arith, run-total_nodes ms (handle_message m c).0, handle_message-total_nodes m c)

-- `votes` are the distinct senders of at least `quorum` of the messages counted in `sent`.
pub record IsBacked (quorum : ℕ) (votes sent : List NodeId) : Type 0 where
  pub enough : quorum ≤ length votes
  pub distinct : Distinct votes
  pub were_sent : Subset votes sent

module _ (node_id : NodeId) (total : ℕ) (ms : List ConsensusMessage) where
  abbrev after : PbftConsensus
  after = run ms (new node_id total)

  commits-sent : Subset after.commit_votes (commits_for after.proposal_id ms)
  unfolding new contains
  commits-sent a h =
      ground (arith, run-commit_votes ms (new node_id total) a (new-Inv node_id total) h)

  prepares-sent : Subset after.prepare_votes (prepares_for after.proposal_id ms)
  unfolding new contains
  prepares-sent a h =
      ground (arith, run-prepare_votes ms (new node_id total) a (new-Inv node_id total) h)

  after-total_nodes : after.total_nodes ≡ total
  unfolding new
  after-total_nodes = run-total_nodes ms (new node_id total)

  -- A node that has only handled messages since it was made, and stands in the committed phase,
  -- counts as commit votes at least `required` distinct nodes, each of which sent it a commit for
  -- the present proposal, and as prepare votes at least `required` distinct nodes, each of which
  -- sent it a prepare for the present proposal.
  pub committed-IsBacked :
      (run ms (new node_id total)).phase ≡ committed
      → IsBacked
          (required total)
          (run ms (new node_id total)).commit_votes
          (commits_for (run ms (new node_id total)).proposal_id ms)
        × IsBacked
            (required total)
            (run ms (new node_id total)).prepare_votes
            (prepares_for (run ms (new node_id total)).proposal_id ms)
  committed-IsBacked h =
      let v = run-new-Inv node_id total ms in
      let q = v.committed_quorum h in
      (
        record {
          enough = omega (arith, ap required after-total_nodes);
          distinct = v.commits_distinct;
          were_sent = commits-sent;
        },
        record {
          enough = omega (arith, ap required after-total_nodes);
          distinct = v.prepares_distinct;
          were_sent = prepares-sent;
        },
      )
