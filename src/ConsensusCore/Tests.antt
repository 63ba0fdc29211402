-- ===== src/ConsensusCore/Tests.antt =====
-- Runs of the consensus service: a database is the list of its keys, and the validators of the
-- default configuration stand in it.
use swarm_intelligence_netwo.Prelude.{
  ℕ, ◌+◌, ◌≤◌, ◌<◌, ◌≡◌, refl, true, ◌&&◌, ◌||◌, some, List, [], ◌∷◌, arith, ◌==◌, string_eq,
  nat_eq, pair_eq, contains, insert, Distinct, length, retain, lookup, remove, put,
}
use swarm_intelligence_netwo.Text.{Text, text_eq, Without, colon, split}
use swarm_intelligence_netwo.Text.Decimal.{print_u64, parse_u64, digits}
use swarm_intelligence_netwo.ConsensusCore.{
  PbftState, Slot, Db, PbftService, starts_with, new, cast_vote, quorum, vote_key, read_key,
  leader_at, voters, add_vote, elect, advance_to, view_change, record_vote, load_votes, restore,
  round_changed,
}
use swarm_intelligence_netwo.ConsensusCore.Votes.{restart_votes}
use swarm_intelligence_netwo.ConsensusCore.Quorum.{announced_round, AllDistinct, cast_all, cast_for}
use swarm_intelligence_netwo.ConsensusCore.Leader.{
  Reach-IsLed, IsLed, here, next, advances, elects, times_out,
}

abbrev scan : Text → List Text → List Text
scan p keys = retain (starts_with p) keys

scan-insert_key :
    (p k j : Text) (keys : List Text)
    → contains (scan p (k ∷ keys)) j ≡ ((starts_with p k && j == k) || contains (scan p keys) j)
unfolding contains
scan-insert_key p k j keys = ground arith

instance abbrev key_list : Db (List Text)
key_list = record { insert_key = ◌∷◌; scan_prefix = scan; scan_prefix-insert_key = scan-insert_key }

abbrev node : ℕ → Text
node i = b'n' ∷ b'-' ∷ (48 + i) ∷ []

node-Without : (i : ℕ) → i < 10 → Without colon (node i)
unfolding contains
node-Without i h = ground arith

abbrev four : List Text
four = node 0 ∷ node 1 ∷ node 2 ∷ node 3 ∷ []

abbrev ballot : List (Slot × Text)
ballot = ((5, 1), node 0) ∷ ((5, 1), node 1) ∷ ((4, 0), node 1) ∷ ((5, 1), node 3) ∷ []

abbrev fresh : PbftService (List Text)
fresh = new four (some [])

ballot_moves : (cast_all ballot fresh).1 ≡ round_changed (5, 1) ∷ []
unfolding new load_votes cast_all cast_vote advance_to elect quorum record_vote restore leader_at
    voters add_vote lookup put insert contains vote_key digits print_u64 remove read_key split
    parse_u64 view_change
ballot_moves = refl

restart_votes_example :
    let s = (cast_all ballot fresh).0 in
    contains (voters (5, 1) (new four s.db).votes) (node 3)
    ≡ contains (voters (5, 1) s.votes) (node 3)
restart_votes_example =
    restart_votes four [] ballot (5, 1) (node 3) refl
      (
        (omega arith, omega arith, node-Without 0 (omega arith)),
        (
          (omega arith, omega arith, node-Without 1 (omega arith)),
          (
            (omega arith, omega arith, node-Without 1 (omega arith)),
            ((omega arith, omega arith, node-Without 3 (omega arith)), tt),
          ),
        ),
      )

fresh-AllDistinct : AllDistinct fresh.votes
unfolding new load_votes restore voters lookup
fresh-AllDistinct slot = tt

nobody_at_first : voters (5, 1) fresh.votes ≡ []
unfolding new load_votes restore voters lookup
nobody_at_first = refl

announced_round_example :
    let ns = voters (5, 1) (cast_all ballot fresh).0.votes in
    Distinct ns
    × (quorum fresh.state ≤ length ns)
    × ((a : Text) → contains ns a ≡ contains (cast_for (5, 1) ballot) a)
announced_round_example =
    announced_round ballot (5, 1) fresh fresh-AllDistinct nobody_at_first (rw ballot_moves refl)

abbrev started : PbftState
started = record { height = 0; round = 0; leader = node 0; validators = four }

led : contains four (node 0) ≡ true
unfolding contains
led = refl

Reach-IsLed_example : IsLed four (view_change (elect (5, 1) (advance_to (5, 1) started)))
Reach-IsLed_example =
    Reach-IsLed four (omega arith) (record { same_validators = refl; leader_is_validator = led })
      (next (next (next here (advances (5, 1))) (elects (5, 1))) times_out)
