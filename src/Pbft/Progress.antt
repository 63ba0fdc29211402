-- ===== src/Pbft/Progress.antt =====
-- libs/rust/core/src/consensus.rs: the phases follow one another, and a quorum carries a proposal
-- from proposal to execution.
use swarm_intelligence_netwo.Prelude.{
  ℕ, suc, ◌+◌, ◌<◌, ◌≡◌, refl, ◌⊎◌, true, false, Option, none, some, List, [], ◌∷◌, ◌++◌, map,
  arith, nat_eq, string_eq, pair_eq, contains, insert, Distinct, equal_refl, contains-insert,
  length-insert, length,
}
use swarm_intelligence_netwo.Pbft.{
  NodeId, ConsensusMessage, proposal, prepare, commit, execute, ConsensusPhase, idle, proposed,
  prepared, committed, PbftConsensus, required, handle_proposal, handle_prepare, handle_commit,
  handle_execute, handle_message,
}
use swarm_intelligence_netwo.Pbft.Invariant.{Inv}

-- The cycle that the comment at the top of the source draws, `executed` left out.
infix 40 ◌⟶◌
pub data ◌⟶◌ : ConsensusPhase → ConsensusPhase → Type 0 where
  accept : idle ⟶ proposed
  prepare_quorum : proposed ⟶ prepared
  commit_quorum : prepared ⟶ committed
  finish : committed ⟶ idle

-- A message either leaves the phase alone, or moves it along one edge of the cycle; and if it
-- leaves the phase alone, it leaves the proposal's number and data alone as well.
pub handle_message-⟶ :
    (m : ConsensusMessage) (c : PbftConsensus)
    → let c' = (handle_message m c).0 in
      (c.phase ⟶ c'.phase)
      ⊎ ((c'.phase ≡ c.phase)
          × (c'.proposal_id ≡ c.proposal_id)
          × (c'.proposal_data ≡ c.proposal_data))
unfolding handle_message handle_proposal handle_prepare handle_commit handle_execute
handle_message-⟶ (proposal id payload proposer) c = grind (arith, accept)
handle_message-⟶ (prepare id node) c = grind (arith, prepare_quorum)
handle_message-⟶ (commit id node) c = grind (arith, commit_quorum)
handle_message-⟶ (execute id) c = grind (arith, finish)

-- None of the nodes has voted yet.
abbrev Fresh : List NodeId → List NodeId → Type 0
Fresh ns votes = (a : NodeId) → contains ns a ≡ true → contains votes a ≡ false

Fresh-insert :
    (n : NodeId) (ns votes : List NodeId)
    → contains ns n ≡ false
    → Fresh (n ∷ ns) votes
    → Fresh ns (insert n votes)
unfolding contains
Fresh-insert n ns votes d fresh a h =
    ground (arith, fresh a, contains-insert n a votes, string_eq.equal_iff a n)

insert_all : List NodeId → List NodeId → List NodeId
insert_all [] votes = votes
insert_all (n ∷ ns) votes = insert_all ns (insert n votes)

-- The node after the messages, and its answers to them.
abbrev answer : Option ConsensusMessage → List ConsensusMessage → List ConsensusMessage
answer none out = out
answer (some m) out = m ∷ out

unfoldable pub exchange :
    List ConsensusMessage → PbftConsensus → PbftConsensus × List ConsensusMessage
exchange [] c = (c, [])
exchange (m ∷ ms) c =
    let (c', reply) = handle_message m c in
    let (last, out) = exchange ms c' in (last, answer reply out)

exchange-cons :
    (m : ConsensusMessage) (ms : List ConsensusMessage) (c : PbftConsensus)
    → let (c', reply) = handle_message m c in
      let (last, out) = exchange ms c' in exchange (m ∷ ms) c ≡ (last, answer reply out)
unfolding exchange
exchange-cons m ms c = refl

exchange-nil : (c : PbftConsensus) → exchange [] c ≡ (c, [])
unfolding exchange
exchange-nil c = refl

abbrev with_prepares : List NodeId → ConsensusPhase → PbftConsensus → PbftConsensus
with_prepares votes phase c = record c {
  state = record (c.state) { prepare_votes = votes; phase = phase };
}

abbrev with_commits : List NodeId → ConsensusPhase → PbftConsensus → PbftConsensus
with_commits votes phase c = record c {
  state = record (c.state) { commit_votes = votes; phase = phase };
}

prepare_early :
    (n : NodeId) (c : PbftConsensus)
    → c.phase ≡ proposed
    → contains c.prepare_votes n ≡ false
    → suc (length c.prepare_votes) < required c.total_nodes
    → handle_message (prepare c.proposal_id n) c
      ≡ (with_prepares (insert n c.prepare_votes) proposed c, none)
unfolding handle_message handle_prepare
prepare_early n c p fresh few = ground (arith, length-insert n c.prepare_votes)

prepare_last :
    (n : NodeId) (c : PbftConsensus)
    → c.phase ≡ proposed
    → contains c.prepare_votes n ≡ false
    → suc (length c.prepare_votes) ≡ required c.total_nodes
    → handle_message (prepare c.proposal_id n) c
      ≡ (with_prepares (insert n c.prepare_votes) prepared c, some (commit c.proposal_id c.node_id))
unfolding handle_message handle_prepare
prepare_last n c p fresh few = ground (arith, length-insert n c.prepare_votes)

commit_early :
    (n : NodeId) (c : PbftConsensus)
    → c.phase ≡ prepared
    → contains c.commit_votes n ≡ false
    → suc (length c.commit_votes) < required c.total_nodes
    → handle_message (commit c.proposal_id n) c
      ≡ (with_commits (insert n c.commit_votes) prepared c, none)
unfolding handle_message handle_commit
commit_early n c p fresh few = ground (arith, length-insert n c.commit_votes)

commit_last :
    (n : NodeId) (c : PbftConsensus)
    → c.phase ≡ prepared
    → contains c.commit_votes n ≡ false
    → suc (length c.commit_votes) ≡ required c.total_nodes
    → handle_message (commit c.proposal_id n) c
      ≡ (with_commits (insert n c.commit_votes) committed c, some (execute c.proposal_id))
unfolding handle_message handle_commit
commit_last n c p fresh few = ground (arith, length-insert n c.commit_votes)

exchange-prepares :
    (n : NodeId) (ns : List NodeId) (ms : List ConsensusMessage) (c : PbftConsensus)
    → c.phase ≡ proposed
    → Distinct (n ∷ ns)
    → Fresh (n ∷ ns) c.prepare_votes
    → length c.prepare_votes + length (n ∷ ns) ≡ required c.total_nodes
    → let (last, out) =
        exchange ms (with_prepares (insert_all (n ∷ ns) c.prepare_votes) prepared c) in
      exchange (map (prepare c.proposal_id) (n ∷ ns) ++ ms) c
      ≡ (last, commit c.proposal_id c.node_id ∷ out)
unfolding exchange insert_all contains
exchange-prepares n [] ms c p d fresh q =
    rw (prepare_last n c p (fresh n (ground (arith, equal_refl n))) (omega arith)) refl
exchange-prepares n (m ∷ ns) ms c p (d, ds) fresh q =
    let unseen = fresh n (ground (arith, equal_refl n)) in
    let c' : PbftConsensus = with_prepares (insert n c.prepare_votes) proposed c in
    rw (prepare_early n c p unseen (omega arith)) (
      exchange-prepares m ns ms c' refl ds (Fresh-insert n (m ∷ ns) c.prepare_votes d fresh)
        (ground (arith, length-insert n c.prepare_votes)))

exchange-commits :
    (n : NodeId) (ns : List NodeId) (ms : List ConsensusMessage) (c : PbftConsensus)
    → c.phase ≡ prepared
    → Distinct (n ∷ ns)
    → Fresh (n ∷ ns) c.commit_votes
    → length c.commit_votes + length (n ∷ ns) ≡ required c.total_nodes
    → let (last, out) =
        exchange ms (with_commits (insert_all (n ∷ ns) c.commit_votes) committed c) in
      exchange (map (commit c.proposal_id) (n ∷ ns) ++ ms) c ≡ (last, execute c.proposal_id ∷ out)
unfolding exchange insert_all contains
exchange-commits n [] ms c p d fresh q =
    rw (commit_last n c p (fresh n (ground (arith, equal_refl n))) (omega arith)) refl
exchange-commits n (m ∷ ns) ms c p (d, ds) fresh q =
    let unseen = fresh n (ground (arith, equal_refl n)) in
    let c' : PbftConsensus = with_commits (insert n c.commit_votes) prepared c in
    rw (commit_early n c p unseen (omega arith)) (
      exchange-commits m ns ms c' refl ds (Fresh-insert n (m ∷ ns) c.commit_votes d fresh)
        (ground (arith, length-insert n c.commit_votes)))

-- The messages of one proposal, from proposal to execution.
abbrev pub ballot : ℕ → List ℕ → NodeId → List NodeId → List NodeId → List ConsensusMessage
ballot id payload proposer ps cs =
    proposal id payload proposer
    ∷ (map (prepare id) ps ++ (map (commit id) cs ++ (execute id ∷ [])))

abbrev pub cleared : ℕ → PbftConsensus → PbftConsensus
cleared id c = record c {
  state = record {
    phase = idle;
    proposal_id = id;
    proposal_data = none;
    prepare_votes = [];
    commit_votes = [];
  };
}

abbrev started : ℕ → List ℕ → PbftConsensus → PbftConsensus
started id payload c = record c {
  state = record {
    phase = proposed;
    proposal_id = id;
    proposal_data = some payload;
    prepare_votes = [];
    commit_votes = [];
  };
}

proposal-started :
    (id : ℕ) (payload : List ℕ) (proposer : NodeId) (c : PbftConsensus)
    → Inv c
    → c.phase ≡ idle
    → handle_message (proposal id payload proposer) c
      ≡ (started id payload c, some (prepare id c.node_id))
unfolding handle_message handle_proposal
proposal-started id payload proposer c v p = ground (arith, v.idle_clear p)

execute-cleared :
    (c : PbftConsensus)
    → c.phase ≡ committed
    → handle_message (execute c.proposal_id) c ≡ (cleared c.proposal_id c, none)
unfolding handle_message handle_execute
execute-cleared c p = ground arith

-- An idle node that satisfies the invariant is sent a proposal, then prepares of as many distinct
-- nodes as `required`, commits of as many distinct nodes, and an execute. It answers with its own
-- prepare, its own commit and an execute, in this order and nothing else, and is idle again with
-- the proposal's number and no data or votes.
pub exchange-ballot :
    (id : ℕ) (payload : List ℕ) (proposer : NodeId) (ps cs : List NodeId) (c : PbftConsensus)
    → Inv c
    → c.phase ≡ idle
    → Distinct ps
    → Distinct cs
    → length ps ≡ required c.total_nodes
    → length cs ≡ required c.total_nodes
    → exchange (ballot id payload proposer ps cs) c
      ≡ (cleared id c, prepare id c.node_id ∷ commit id c.node_id ∷ execute id ∷ [])
unfolding contains
exchange-ballot id payload proposer [] cs c v p dp dc lp lc = absurd (omega arith)
exchange-ballot id payload proposer (n ∷ ps) [] c v p dp dc lp lc = absurd (omega arith)
exchange-ballot id payload proposer (n ∷ ps) (m ∷ cs) c v p dp dc lp lc =
    let c1 : PbftConsensus = started id payload c in
    let c2 : PbftConsensus = with_prepares (insert_all (n ∷ ps) []) prepared c1 in
    let c3 : PbftConsensus = with_commits (insert_all (m ∷ cs) []) committed c2 in
    let commits : List ConsensusMessage = map (commit id) (m ∷ cs) ++ (execute id ∷ []) in
    rw (
      exchange-cons (proposal id payload proposer) (map (prepare id) (n ∷ ps) ++ commits) c,
      proposal-started id payload proposer c v p,
      exchange-prepares n ps commits c1 refl dp (λ a h. refl) (omega arith),
      exchange-commits m cs (execute id ∷ []) c2 refl dc (λ a h. refl) (omega arith),
      exchange-cons (execute id) [] c3,
      execute-cleared c3 refl,
      exchange-nil (cleared id c3),
    )
