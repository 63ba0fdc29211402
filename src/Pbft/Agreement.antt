-- ===== src/Pbft/Agreement.antt =====
-- libs/rust/core/src/consensus.rs: the quorums of two nodes share more than the faulty ones.
use swarm_intelligence_netwo.Prelude.{
  ℕ, ◌*◌, ◌^◌, ◌<◌, ◌≡◌, List, arith, length, retain, contains, Subset, length-overlap, string_eq,
}
use swarm_intelligence_netwo.Pbft.{NodeId, ConsensusMessage, committed, new, required, run}
use swarm_intelligence_netwo.Pbft.Trace.{IsBacked, commits_for, committed-IsBacked}

-- The nodes that both vote sets name.
unfoldable pub common : List NodeId → List NodeId → List NodeId
common xs ys = retain (contains ys) xs

quorums_overlap :
    (n f q : ℕ) (xs ys sent sent' validators : List NodeId)
    → length validators ≡ n
    → q ≡ required n
    → n < 2 ^ 63
    → 3 * f < n
    → IsBacked q xs sent
    → IsBacked q ys sent'
    → Subset sent validators
    → Subset sent' validators
    → f < length (common xs ys)
unfolding common
quorums_overlap n f q xs ys sent sent' validators e r small faulty bx by sx sy = omega (
  arith,
  bx.enough,
  by.enough,
  length-overlap xs ys validators bx.distinct by.distinct (λ a h. sx a (bx.were_sent a h))
      (λ a h. sy a (by.were_sent a h)),
)

-- Two nodes of one group of fewer than 2^63 validators, each driven from its start by messages
-- whose commits come from the validators alone, and both in the committed phase, count more than
-- `f` nodes in common among their commit votes, for every `f` below a third of the group.
pub committed_nodes_share :
    (validators : List NodeId) (f : ℕ) (id id' : NodeId) (ms ms' : List ConsensusMessage)
    → let n = length validators in
      length validators < 2 ^ 63
      → 3 * f < length validators
      → Subset (commits_for (run ms (new id n)).proposal_id ms) validators
      → Subset (commits_for (run ms' (new id' n)).proposal_id ms') validators
      → (run ms (new id n)).phase ≡ committed
      → (run ms' (new id' n)).phase ≡ committed
      → f < length (common (run ms (new id n)).commit_votes (run ms' (new id' n)).commit_votes)
committed_nodes_share validators f id id' ms ms' small faulty sx sy h h' =
    let n = length validators in
    quorums_overlap n f (required n) (run ms (new id n)).commit_votes
      (run ms' (new id' n)).commit_votes _ _ validators (omega arith) (omega arith) small faulty
      (committed-IsBacked id n ms h).0 (committed-IsBacked id' n ms' h').0 sx sy
