-- ===== src/ConsensusCore/Votes.antt =====
-- services/consensus-core/src/lib.rs: the votes kept in the database, and what a restart finds.
use swarm_intelligence_netwo.Prelude.{
  ℕ, ◌^◌, ◌<◌, ◌≡◌, refl, ap, ◌∙◌, Bool, true, false, ◌&&◌, ◌||◌, Option, none, some, List, [], ◌∷◌,
  ◌++◌, map, arith, ◌==◌, string_eq, nat_eq, pair_eq, contains, Subset, equal_refl, contains-insert,
  length, All, lookup,
}
use swarm_intelligence_netwo.Text.{
  Text, text_eq, colon, Without, split, split-append, split_single, length-split,
}
use swarm_intelligence_netwo.Text.Decimal.{print_u64, parse_u64-print_u64, contains-print_u64}
use swarm_intelligence_netwo.ConsensusCore.{
  Slot, Votes, starts_with, Db, PbftService, voters, prefix, vote_key, of_parts, read_key,
  restore_one, restore, load_votes, new, persist, record_vote, cast_vote,
}
use swarm_intelligence_netwo.ConsensusCore.Quorum.{
  voters-add_vote, Ballot, cast_for, cast_all, cast_all-sent,
}

-- The numbers are `u64`, and the name of the node has no colon.
abbrev pub IsClean : Slot × Text → Type 0
IsClean ((height, round), node) = (height < 2 ^ 64) × (round < 2 ^ 64) × Without colon node

abbrev tag : Text
tag = b'v' ∷ b'o' ∷ b't' ∷ b'e' ∷ []

tag-Without : Without colon tag
unfolding contains
tag-Without = refl

print_u64-Without : (n : ℕ) → Without colon (print_u64 n)
print_u64-Without n = ground (arith, contains-print_u64 n colon)

split-vote_key :
    (height round : ℕ) (node : Text)
    → split colon (vote_key (height, round) node)
      ≡ tag ∷ print_u64 height ∷ print_u64 round ∷ split colon node
unfolding vote_key
split-vote_key height round node =
    split-append colon tag (print_u64 height ++ b':' ∷ (print_u64 round ++ b':' ∷ node)) tag-Without
    ∙ ap (◌∷◌ tag) (
        split-append colon (print_u64 height) (print_u64 round ++ b':' ∷ node)
          (print_u64-Without height)
        ∙ ap (◌∷◌ (print_u64 height))
            (split-append colon (print_u64 round) node (print_u64-Without round)))

-- A key that was written for a clean vote is read back as that vote.
pub read_key-vote_key :
    (height round : ℕ) (node : Text)
    → IsClean ((height, round), node)
    → read_key (vote_key (height, round) node) ≡ some ((height, round), node)
unfolding read_key
read_key-vote_key height round node (h, r, w) =
    rw
      (
        split-vote_key,
        split_single colon node w,
        parse_u64-print_u64 height h,
        parse_u64-print_u64 round r,
      )
      refl

of_parts-long :
    (first height round : Text) (ps : List Text)
    → 1 < length ps
    → of_parts (first ∷ height ∷ round ∷ ps) ≡ none
of_parts-long first height round [] h = absurd (omega arith)
of_parts-long first height round (p ∷ []) h = absurd (omega arith)
of_parts-long first height round (p ∷ q ∷ ps) h = refl

-- The key of a vote whose node has a colon in its name is read back as no vote.
pub read_key_lost :
    (height round : ℕ) (node : Text)
    → contains node colon ≡ true
    → read_key (vote_key (height, round) node) ≡ none
unfolding read_key
read_key_lost height round node h = rw split-vote_key (
    of_parts-long tag (print_u64 height) (print_u64 round) (split colon node)
      (length-split colon node h))

-- What a key says of a voter.
abbrev says : Option (Slot × Text) → Slot → Text → Bool
says none slot a = false
says (some (slot', node)) slot a = slot' == slot && a == node

abbrev read : List Text → Slot → Text → Bool
read [] slot a = false
read (k ∷ ks) slot a = says (read_key k) slot a || read ks slot a

contains-restore_one :
    (o : Option (Slot × Text)) (slot : Slot) (a : Text) (votes : Votes)
    → contains (voters slot (restore_one o votes)) a
      ≡ (says o slot a || contains (voters slot votes) a)
contains-restore_one none slot a votes = refl
contains-restore_one (some (slot', node)) slot a votes = ground (
  arith,
  voters-add_vote slot' slot node votes,
  contains-insert node a (voters slot' votes),
  pair_eq.equal_iff slot' slot,
)

contains-restore :
    (ks : List Text) (slot : Slot) (a : Text) (votes : Votes)
    → contains (voters slot (restore ks votes)) a
      ≡ (read ks slot a || contains (voters slot votes) a)
unfolding restore
contains-restore [] slot a votes = refl
contains-restore (k ∷ ks) slot a votes = ground (
  arith,
  contains-restore ks slot a (restore_one (read_key k) votes),
  contains-restore_one (read_key k) slot a votes,
)

read-contains :
    (ks : List Text) (k : Text) (slot : Slot) (a : Text)
    → contains ks k ≡ true
    → says (read_key k) slot a ≡ true
    → read ks slot a ≡ true
unfolding contains
read-contains [] k slot a h said = ground arith
read-contains (j ∷ ks) k slot a h said =
    ground (arith, read-contains ks k slot a, text_eq.equal_iff k j)

read_mono :
    (ks js : List Text) (slot : Slot) (a : Text)
    → Subset ks js
    → read ks slot a ≡ true
    → read js slot a ≡ true
unfolding contains
read_mono [] js slot a s h = ground arith
read_mono (k ∷ ks) js slot a s h =
    let held : contains js k ≡ true = s k (ground (arith, equal_refl k)) in
    let below : Subset ks js = λ b c. s b (ground arith) in
    ground (arith, read_mono ks js slot a below, read-contains js k slot a held)

abbrev key_of : Slot × Text → Text
key_of (slot, node) = vote_key slot node

read-keys :
    (b : Ballot) (slot : Slot) (a : Text)
    → All IsClean b
    → read (map key_of b) slot a ≡ contains (cast_for slot b) a
unfolding contains
read-keys [] slot a clean = refl
read-keys (((h, r), node) ∷ b) slot a (c, clean) =
    ground (arith, read-keys b slot a clean, read_key-vote_key h r node c)

nobody_yet : (slot : Slot) (a : Text) → contains (voters slot (restore [] [])) a ≡ false
unfolding contains voters restore lookup
nobody_yet slot a = refl

nobody_first : (slot : Slot) (a : Text) → contains (voters slot []) a ≡ false
unfolding contains voters lookup
nobody_first slot a = refl

starts_with-vote_key : (slot : Slot) (node : Text) → starts_with prefix (vote_key slot node) ≡ true
unfolding vote_key
starts_with-vote_key (h, r) node = refl

module _ {Tree : Type 0} ⦃d : Db Tree⦄ where
  db-cast_vote :
      (slot : Slot) (node : Text) (s : PbftService Tree)
      → (cast_vote slot node s).0.db ≡ persist (vote_key slot node) s.db
  unfolding cast_vote record_vote
  db-cast_vote slot node s = ground arith

  abbrev written : Ballot → Tree → Tree
  written [] t = t
  written ((slot, node) ∷ b) t = written b (d.insert_key (vote_key slot node) t)

  db-cast_all :
      (b : Ballot) (s : PbftService Tree) (t : Tree)
      → s.db ≡ some t
      → (cast_all b s).0.db ≡ some (written b t)
  unfolding cast_all
  db-cast_all [] s t e = e
  db-cast_all ((slot, node) ∷ b) s t e =
      db-cast_all b (cast_vote slot node s).0 (d.insert_key (vote_key slot node) t)
        (db-cast_vote slot node s ∙ ap (persist (vote_key slot node)) e)

  contains-written :
      (b : Ballot) (t : Tree) (k : Text)
      → contains (d.scan_prefix prefix (written b t)) k
        ≡ (contains (map key_of b) k || contains (d.scan_prefix prefix t) k)
  unfolding contains
  contains-written [] t k = refl
  contains-written ((slot, node) ∷ b) t k = ground (
    arith,
    contains-written b (d.insert_key (vote_key slot node) t) k,
    d.scan_prefix-insert_key prefix (vote_key slot node) k t,
    starts_with-vote_key slot node,
  )

  votes-new :
      (validators : List Text) (t : Tree)
      → (new validators (some t)).votes ≡ restore (d.scan_prefix prefix t) []
  unfolding new load_votes
  votes-new validators t = refl

  db-new : (validators : List Text) (t : Tree) → (new validators (some t)).db ≡ some t
  unfolding new load_votes
  db-new validators t = refl

  -- A service starts with a database that holds no vote, and votes with clean names and numbers
  -- are cast at it. A service that is then started from its database has counted for every slot
  -- just the nodes that the first one has.
  pub restart_votes :
      (validators : List Text) (t : Tree) (b : Ballot) (slot : Slot) (a : Text)
      → d.scan_prefix prefix t ≡ []
      → All IsClean b
      → let s = (cast_all b (new validators (some t))).0 in
        contains (voters slot (new validators s.db).votes) a ≡ contains (voters slot s.votes) a
  unfolding contains
  restart_votes validators t b slot a empty clean =
      let scan = d.scan_prefix prefix (written b t) in
      let none_before : (k : Text) → contains (d.scan_prefix prefix t) k ≡ false =
        λ k. rw empty refl in
      let into : Subset scan (map key_of b) =
        λ k h. ground (arith, contains-written b t k, none_before k) in
      let from : Subset (map key_of b) scan = λ k h. ground (arith, contains-written b t k) in
      let nobody : contains (voters slot (new validators (some t)).votes) a ≡ false =
        rw (votes-new, empty) (nobody_yet slot a) in
      rw (db-cast_all b (new validators (some t)) t (db-new validators t), votes-new)
        (ground (
          arith,
          contains-restore scan slot a [],
          read_mono scan (map key_of b) slot a into,
          read_mono (map key_of b) scan slot a from,
          read-keys b slot a clean,
          cast_all-sent b slot a (new validators (some t)),
          nobody,
          nobody_first slot a,
        ))
