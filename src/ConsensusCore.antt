-- ===== src/ConsensusCore.antt =====
-- services/consensus-core/src/lib.rs and view_change.rs: the consensus service. Each of `elect_leader`,
-- `record_vote`, `advance_to` and `view_change` holds its lock from start to end and is one step;
-- the handlers are sequences of them. Node names are texts, an `Instant` is a number that the
-- caller reads. Left out: poisoned locks, metrics, log lines, the transport, and the environment
-- variables, whose values are arguments. What a handler publishes on NATS is part of its result.
pub mod Votes
pub mod Leader
pub mod Quorum
mod Tests
use swarm_intelligence_netwo.Prelude.{
  ℕ, zero, suc, ◌+◌, ◌-◌, ◌*◌, ◌/◌, ◌%◌, ◌^◌, ◌≤◌, ◌<◌, min, max, String, ◌≡◌, refl, sym, ap, ◌∙◌,
  ◌≢◌, ◌↔◌, ◌⊎◌, inl, inr, Bool, true, false, not, ◌&&◌, ◌||◌, Option, none, some, List, [], ◌∷◌,
  ◌++◌, map, arith, ltb, leb, nat_beq, if◌then◌else◌, nat_beq_iff, Eq, ◌==◌, string_eq, nat_eq,
  pair_beq, pair_beq_iff, pair_eq, Bool-cases, Option-cases, is_some, u64, u32, u8, u64_id,
  contains, insert, Distinct, Subset, equal_refl, contains-insert, contains-insert_self,
  length-insert, Distinct-insert, insert_of_contains, contains-append, contains-retain,
  Distinct-retain, length_mono-Subset, length-overlap, length, get_elem?, take, drop, replicate,
  retain, All, length-append, length-drop, length-take, take-append-drop, length-retain-le,
  All-append, length-map, Map, lookup, remove, put, lookup-remove, lookup-put,
}
use swarm_intelligence_netwo.Text.{Text, text_eq, colon, split}
use swarm_intelligence_netwo.Text.Decimal.{print_u64, parse_u64}

pub record PbftState : Type 0 where
  pub height : ℕ
  pub round : ℕ
  pub leader : Text
  pub validators : List Text

-- (height, round)
abbrev pub Slot : Type 0
Slot = ℕ × ℕ

abbrev pub Votes : Type 0
Votes = Map Slot (List Text)

-- What the service takes from `sled`: insertion of a key and the scan of the keys with a prefix.
abbrev pub starts_with : Text → Text → Bool
starts_with [] s = true
starts_with (x ∷ xs) [] = false
starts_with (x ∷ xs) (y ∷ ys) = nat_beq x y && starts_with xs ys

pub record Db (Tree : Type 0) : Type 0 where
  pub insert_key : Text → Tree → Tree
  pub scan_prefix : Text → Tree → List Text
  pub scan_prefix-insert_key :
      (p k j : Text) (t : Tree)
      → contains (scan_prefix p (insert_key k t)) j
        ≡ ((starts_with p k && j == k) || contains (scan_prefix p t) j)

pub record PbftService (Tree : Type 0) : Type 0 where
  pub state : PbftState
  pub votes : Votes
  pub round_starts : Map Slot ℕ
  pub db : Option Tree

-- What the spawned tasks publish.
pub data Event : Type 0 where
  height_changed : Slot → Event
  round_changed : Slot → Event

-- `map.entry(slot).or_insert_with(HashSet::new)`
unfoldable pub voters : Slot → Votes → List Text
voters slot votes = elim (lookup slot votes) [ none ↦ [] | some ns ↦ ns ]

unfoldable pub add_vote : Slot → Text → Votes → Votes
add_vote slot node votes = put slot (insert node (voters slot votes)) votes

abbrev pub prefix : Text
prefix = b'v' ∷ b'o' ∷ b't' ∷ b'e' ∷ b':' ∷ []

-- `format!("vote:{}:{}:{}", height, round, node)`
unfoldable pub vote_key : Slot → Text → Text
vote_key (height, round) node =
    b'v' ∷ b'o' ∷ b't' ∷ b'e' ∷ b':' ∷ (print_u64 height ++ b':' ∷ (print_u64 round ++ b':' ∷ node))

abbrev pub both : Option ℕ → Option ℕ → Text → Option (Slot × Text)
both (some h) (some r) node = some ((h, r), node)
both _ _ node = none

abbrev pub of_parts : List Text → Option (Slot × Text)
of_parts (tag ∷ h ∷ r ∷ node ∷ []) = both (parse_u64 h) (parse_u64 r) node
of_parts _ = none

unfoldable pub read_key : Text → Option (Slot × Text)
read_key key = of_parts (split colon key)

abbrev pub restore_one : Option (Slot × Text) → Votes → Votes
restore_one none votes = votes
restore_one (some (slot, node)) votes = add_vote slot node votes

-- The loop of `load_votes` over the scanned keys.
unfoldable pub restore : List Text → Votes → Votes
restore [] votes = votes
restore (k ∷ ks) votes = restore ks (restore_one (read_key k) votes)

unfoldable pub leader_at : ℕ → List Text → Text
leader_at n validators = elim (get_elem? validators (n % length validators)) [
  | none ↦ []
  | some v ↦ v
]

unfoldable pub elect : Slot → PbftState → PbftState
elect (height, round) st =
    if leb (length st.validators) 0
    then st
    else record st { leader = leader_at (u64 (height + round)) st.validators }

-- The timer of view_change.rs, after each timeout. The list of validators that it reads first is
-- never written, so it is the one that it finds under the second lock.
unfoldable pub view_change : PbftState → PbftState
view_change st =
    let round' = u64 (st.round + 1) in
    if leb (length st.validators) 0
    then st
    else record st { round = round'; leader = leader_at round' st.validators }

-- The first block of `propose` and of `cast_vote`.
unfoldable pub advance_to : Slot → PbftState → PbftState
advance_to (height, round) st =
    if ltb st.height height then record st { height = height; round = round } else st

unfoldable pub quorum : PbftState → ℕ
quorum st = u64 (length st.validators * 2) / 3 + 1

abbrev pub first_or_default : List Text → Text
first_or_default [] = []
first_or_default (v ∷ vs) = v

module _ {Tree : Type 0} ⦃d : Db Tree⦄ where
  unfoldable pub load_votes : PbftService Tree → PbftService Tree
  load_votes s = elim s.db [
    | none ↦ s
    | some t ↦ record s { votes = restore (d.scan_prefix prefix t) s.votes }
  ]

  -- `validators` is `node-0`, `node-1` and so on, as many as VALIDATOR_SET_SIZE says.
  unfoldable pub new : List Text → Option Tree → PbftService Tree
  unfolding load_votes
  new validators db = load_votes (record {
    state = record {
      height = 0;
      round = 0;
      leader = first_or_default validators;
      validators = validators;
    };
    votes = [];
    round_starts = [];
    db = db;
  })

  abbrev pub persist : Text → Option Tree → Option Tree
  persist k none = none
  persist k (some t) = some (d.insert_key k t)

  -- The set of the slot's voters is counted after the vote is in it.
  unfoldable pub record_vote : Slot → Text → PbftService Tree → PbftService Tree × ℕ
  record_vote slot node s =
      let votes' = add_vote slot node s.votes in
      (
        record s { votes = votes'; db = persist (vote_key slot node) s.db },
        length (voters slot votes'),
      )

  -- The id and the payload of a proposal are not read.
  unfoldable pub propose : Slot → ℕ → PbftService Tree → PbftService Tree × List Event
  propose (height, round) now s =
      let st = elect (height, round) (advance_to (height, round) s.state) in
      if ltb s.state.height height
      then (
        record s { state = st; round_starts = put (height, round) now s.round_starts },
        height_changed (height, round) ∷ [],
      )
      else (s, [])

  -- The proposal id and the type of a vote are not read.
  unfoldable pub cast_vote : Slot → Text → PbftService Tree → PbftService Tree × List Event
  cast_vote slot node s =
      let st = advance_to slot s.state in
      let (s', count) = record_vote slot node (record s { state = st }) in
      if leb (quorum st) count
      then (
        record s' { state = elect slot st; round_starts = remove slot s.round_starts },
        round_changed slot ∷ [],
      )
      else (s', [])

  -- `None` is `Status::not_found`.
  unfoldable pub get_state : ℕ → PbftService Tree → Option (ℕ × ℕ × Text)
  get_state height s =
      if not (height == 0) && not (height == s.state.height)
      then none
      else some (s.state.height, s.state.round, s.state.leader)

  unfoldable pub snapshot : PbftService Tree → PbftState
  snapshot s = s.state
