-- ===== src/ConsensusCore/Quorum.antt =====
-- services/consensus-core/src/lib.rs: votes, and when a quorum is announced.
use swarm_intelligence_netwo.Prelude.{
  ◌≤◌, ◌≡◌, refl, ap, inl, inr, Bool, true, false, ◌||◌, List, [], ◌∷◌, ◌++◌, arith, leb,
  if◌then◌else◌, ◌==◌, string_eq, nat_eq, pair_eq, Bool-cases, contains, insert, Distinct,
  contains-insert, length-insert, Distinct-insert, length, lookup-put,
}
use swarm_intelligence_netwo.Text.{Text, text_eq}
use swarm_intelligence_netwo.ConsensusCore.{
  Slot, Votes, Db, PbftService, Event, round_changed, height_changed, voters, add_vote, elect,
  advance_to, quorum, record_vote, cast_vote,
}

pub voters-add_vote :
    (slot slot' : Slot) (node : Text) (votes : Votes)
    → voters slot' (add_vote slot node votes)
      ≡ (if slot == slot' then insert node (voters slot votes) else voters slot' votes)
unfolding voters add_vote
voters-add_vote slot slot' node votes =
    ground (arith, lookup-put slot slot' (insert node (voters slot votes)) votes)

-- Every slot has counted each node once.
abbrev pub AllDistinct : Votes → Type 0
AllDistinct votes = (slot : Slot) → Distinct (voters slot votes)

add_vote-Distinct :
    (slot : Slot) (node : Text) (votes : Votes)
    → AllDistinct votes
    → AllDistinct (add_vote slot node votes)
add_vote-Distinct slot node votes d slot' = elim (Bool-cases (slot == slot')) [
  | inl same ↦ rw (voters-add_vote, same) (Distinct-insert node (voters slot votes) (d slot))
  | inr other ↦ rw (voters-add_vote, other) (d slot')
]

length-voters_mono :
    (slot slot' : Slot) (node : Text) (votes : Votes)
    → length (voters slot' votes) ≤ length (voters slot' (add_vote slot node votes))
length-voters_mono slot slot' node votes = ground (
  arith,
  voters-add_vote slot slot' node votes,
  length-insert node (voters slot votes),
  pair_eq.equal_iff slot slot',
)

-- Votes cast one after the other.
abbrev pub Ballot : Type 0
Ballot = List (Slot × Text)

abbrev pub cast_for : Slot → Ballot → List Text
cast_for slot [] = []
cast_for slot ((slot', node) ∷ b) =
    let rest = cast_for slot b in if slot' == slot then node ∷ rest else rest

abbrev pub announces : Slot → List Event → Bool
announces slot [] = false
announces slot (round_changed slot' ∷ es) = slot' == slot || announces slot es
announces slot (height_changed slot' ∷ es) = announces slot es

announces-append :
    (slot : Slot) (xs ys : List Event)
    → announces slot (xs ++ ys) ≡ (announces slot xs || announces slot ys)
announces-append slot [] ys = refl
announces-append slot (round_changed slot' ∷ es) ys = ground (arith, announces-append slot es ys)
announces-append slot (height_changed slot' ∷ es) ys = announces-append slot es ys

module _ {Tree : Type 0} ⦃d : Db Tree⦄ where
  unfoldable pub cast_all : Ballot → PbftService Tree → PbftService Tree × List Event
  cast_all [] s = (s, [])
  cast_all ((slot, node) ∷ b) s =
      let (s', new) = cast_vote slot node s in
      let (s'', later) = cast_all b s' in (s'', new ++ later)

  pub votes-cast_vote :
      (slot : Slot) (node : Text) (s : PbftService Tree)
      → (cast_vote slot node s).0.votes ≡ add_vote slot node s.votes
  unfolding cast_vote record_vote
  votes-cast_vote slot node s = ground arith

  pub validators-cast_vote :
      (slot : Slot) (node : Text) (s : PbftService Tree)
      → (cast_vote slot node s).0.state.validators ≡ s.state.validators
  unfolding cast_vote record_vote advance_to elect
  validators-cast_vote (h, r) node s = ground arith

  announced :
      (slot : Slot) (node : Text) (s : PbftService Tree)
      → (cast_vote slot node s).1 ≡ (
          if leb (quorum s.state) (length (voters slot (add_vote slot node s.votes)))
          then round_changed slot ∷ []
          else [])
  unfolding cast_vote record_vote advance_to quorum
  announced (h, r) node s = ground arith

  quorum-cast_vote :
      (slot : Slot) (node : Text) (s : PbftService Tree)
      → quorum (cast_vote slot node s).0.state ≡ quorum s.state
  unfolding quorum
  quorum-cast_vote slot node s = rw (validators-cast_vote slot node s) refl

  length-cast_all_mono :
      (b : Ballot) (slot : Slot) (s : PbftService Tree)
      → length (voters slot s.votes) ≤ length (voters slot (cast_all b s).0.votes)
  unfolding cast_all
  length-cast_all_mono [] slot s = omega arith
  length-cast_all_mono ((slot', node) ∷ b) slot s = omega (
    arith,
    length-voters_mono slot' slot node s.votes,
    length-cast_all_mono b slot (cast_vote slot' node s).0,
    ap (λ (v : Votes). length (voters slot v)) (votes-cast_vote slot' node s),
  )

  announced-quorum :
      (slot slot' : Slot) (node : Text) (s : PbftService Tree)
      → announces slot (cast_vote slot' node s).1 ≡ true
      → quorum s.state ≤ length (voters slot (cast_vote slot' node s).0.votes)
  announced-quorum slot slot' node s h =
      ground
        (arith, announced slot' node s, votes-cast_vote slot' node s, pair_eq.equal_iff slot' slot)

  cast_all-quorum :
      (b : Ballot) (slot : Slot) (s : PbftService Tree)
      → announces slot (cast_all b s).1 ≡ true
      → quorum s.state ≤ length (voters slot (cast_all b s).0.votes)
  unfolding cast_all
  cast_all-quorum [] slot s h = cc
  cast_all-quorum ((slot', node) ∷ b) slot s h =
      let s' = (cast_vote slot' node s).0 in
      ground (
        arith,
        announces-append slot (cast_vote slot' node s).1 (cast_all b s').1,
        announced-quorum slot slot' node s,
        cast_all-quorum b slot s',
        quorum-cast_vote slot' node s,
        length-cast_all_mono b slot s',
      )

  cast_all-Distinct :
      (b : Ballot) (s : PbftService Tree) → AllDistinct s.votes → AllDistinct (cast_all b s).0.votes
  unfolding cast_all
  cast_all-Distinct [] s d = d
  cast_all-Distinct ((slot, node) ∷ b) s d =
      cast_all-Distinct b (cast_vote slot node s).0
        (rw votes-cast_vote (add_vote-Distinct slot node s.votes d))

  pub cast_all-sent :
      (b : Ballot) (slot : Slot) (a : Text) (s : PbftService Tree)
      → contains (voters slot (cast_all b s).0.votes) a
        ≡ (contains (cast_for slot b) a || contains (voters slot s.votes) a)
  unfolding cast_all contains
  cast_all-sent [] slot a s = refl
  cast_all-sent ((slot', node) ∷ b) slot a s = ground (
    arith,
    cast_all-sent b slot a (cast_vote slot' node s).0,
    votes-cast_vote slot' node s,
    voters-add_vote slot' slot node s.votes,
    contains-insert node a (voters slot' s.votes),
    pair_eq.equal_iff slot' slot,
  )

  -- Votes are cast one after the other at a service that has none for a slot. If a change of that
  -- slot's round is ever announced, then at least `quorum` distinct nodes have cast a vote for the
  -- slot: the voters that the service has counted are distinct, are `quorum` at least, and are just
  -- the nodes that cast votes for the slot.
  pub announced_round :
      (b : Ballot) (slot : Slot) (s : PbftService Tree)
      → AllDistinct s.votes
      → voters slot s.votes ≡ []
      → announces slot (cast_all b s).1 ≡ true
      → let ns = voters slot (cast_all b s).0.votes in
        Distinct ns
        × (quorum s.state ≤ length ns)
        × ((a : Text) → contains ns a ≡ contains (cast_for slot b) a)
  unfolding contains
  announced_round b slot s d none_yet h = (
    cast_all-Distinct b s d slot,
    cast_all-quorum b slot s h,
    λ a. ground (arith, cast_all-sent b slot a s),
  )
