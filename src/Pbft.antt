-- ===== src/Pbft.antt =====
-- libs/rust/core/src/consensus.rs: the PBFT-style state machine of one node. Every handler holds
-- the write lock from its first line to its last, so it is one step on the state; none returns an
-- `Err`, so a handler returns the new state and its optional answer. The lock, the log line of
-- `handle_execute` and serialisation are left out.
pub mod Invariant
pub mod Trace
pub mod Agreement
pub mod Progress
pub mod Stale
mod Tests
use swarm_intelligence_netwo.Prelude.{
  ℕ, ◌+◌, ◌*◌, ◌/◌, String, Bool, true, false, not, ◌||◌, Option, none, some, List, [], ◌∷◌, leb,
  u64, if◌then◌else◌, ◌==◌, nat_eq, string_eq, length, insert,
}

abbrev pub NodeId : Type 0
NodeId = String

pub data ConsensusMessage : Type 0 where
  proposal : ℕ → List ℕ → NodeId → ConsensusMessage
  prepare : ℕ → NodeId → ConsensusMessage
  commit : ℕ → NodeId → ConsensusMessage
  execute : ℕ → ConsensusMessage

pub data ConsensusPhase : Type 0 where
  idle proposed prepared committed executed : ConsensusPhase

abbrev pub phase_beq : ConsensusPhase → ConsensusPhase → Bool
phase_beq idle idle = true
phase_beq proposed proposed = true
phase_beq prepared prepared = true
phase_beq committed committed = true
phase_beq executed executed = true
phase_beq _ _ = false

pub record ConsensusState : Type 0 where
  pub phase : ConsensusPhase
  pub proposal_id : ℕ
  pub proposal_data : Option (List ℕ)
  pub prepare_votes : List NodeId
  pub commit_votes : List NodeId

pub record PbftConsensus : Type 0 where
  pub node_id : NodeId
  pub total_nodes : ℕ
  pub state : ConsensusState
  pub open state use *

unfoldable pub new : NodeId → ℕ → PbftConsensus
new node_id total_nodes = record {
  node_id = node_id;
  total_nodes = total_nodes;
  state = record {
    phase = idle;
    proposal_id = 0;
    proposal_data = none;
    prepare_votes = [];
    commit_votes = [];
  };
}

-- `(self.total_nodes * 2) / 3 + 1` in `usize`
abbrev pub required : ℕ → ℕ
required total_nodes = u64 (total_nodes * 2) / 3 + 1

-- `propose` asks for no phase, and leaves the votes as they are.
unfoldable pub propose : List ℕ → PbftConsensus → PbftConsensus × ConsensusMessage
propose payload c =
    let id = u64 (c.proposal_id + 1) in
    let st = record (c.state) {
      proposal_id = id;
      proposal_data = some payload;
      phase = proposed;
    } in
    (record c { state = st }, proposal id payload c.node_id)

unfoldable pub handle_proposal :
    ℕ → List ℕ → NodeId → PbftConsensus → PbftConsensus × Option ConsensusMessage
handle_proposal id payload proposer c =
    let st = record (c.state) {
      proposal_id = id;
      proposal_data = some payload;
      phase = proposed;
    } in
    if not (phase_beq c.phase idle)
    then (c, none)
    else (record c { state = st }, some (prepare id c.node_id))

unfoldable pub handle_prepare : ℕ → NodeId → PbftConsensus → PbftConsensus × Option ConsensusMessage
handle_prepare id node c =
    let votes = insert node c.prepare_votes in
    let st = record (c.state) { prepare_votes = votes } in
    if not (c.proposal_id == id) || not (phase_beq c.phase proposed)
    then (c, none)
    else if leb (required c.total_nodes) (length votes)
    then (record c { state = record st { phase = prepared } }, some (commit id c.node_id))
    else (record c { state = st }, none)

unfoldable pub handle_commit : ℕ → NodeId → PbftConsensus → PbftConsensus × Option ConsensusMessage
handle_commit id node c =
    let votes = insert node c.commit_votes in
    let st = record (c.state) { commit_votes = votes } in
    if not (c.proposal_id == id) || not (phase_beq c.phase prepared)
    then (c, none)
    else if leb (required c.total_nodes) (length votes)
    then (record c { state = record st { phase = committed } }, some (execute id))
    else (record c { state = st }, none)

-- The phase is `executed` only between two lines under the lock.
unfoldable pub handle_execute : ℕ → PbftConsensus → PbftConsensus × Option ConsensusMessage
handle_execute id c =
    let st = record (c.state) { phase = executed } in
    let cleared = record st {
      prepare_votes = [];
      commit_votes = [];
      proposal_data = none;
      phase = idle;
    } in
    if not (c.proposal_id == id) || not (phase_beq c.phase committed)
    then (c, none)
    else (record c { state = cleared }, none)

unfoldable pub handle_message :
    ConsensusMessage → PbftConsensus → PbftConsensus × Option ConsensusMessage
unfolding handle_proposal handle_prepare handle_commit handle_execute
handle_message (proposal id payload proposer) c = handle_proposal id payload proposer c
handle_message (prepare id node) c = handle_prepare id node c
handle_message (commit id node) c = handle_commit id node c
handle_message (execute id) c = handle_execute id c

unfoldable pub get_phase : PbftConsensus → ConsensusPhase
get_phase c = c.phase

-- The node after the messages that the transport delivers, in their order.
unfoldable pub run : List ConsensusMessage → PbftConsensus → PbftConsensus
unfolding handle_message
run [] c = c
run (m ∷ ms) c = run ms (handle_message m c).0
