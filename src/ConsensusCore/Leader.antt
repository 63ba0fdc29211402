-- ===== src/ConsensusCore/Leader.antt =====
-- services/consensus-core/src/lib.rs and view_change.rs: the leader, the height and the round.
use native.Mathlib.Nat.{mod-lt}
use swarm_intelligence_netwo.Prelude.{
  ℕ, zero, suc, ◌+◌, ◌%◌, ◌<◌, max, ◌≡◌, refl, true, some, List, [], ◌∷◌, arith, string_eq, nat_eq,
  pair_eq, u64, contains, equal_refl, length, get_elem?,
}
use swarm_intelligence_netwo.Text.{Text, text_eq}
use swarm_intelligence_netwo.ConsensusCore.{
  PbftState, Slot, Db, PbftService, leader_at, elect, view_change, advance_to, record_vote, propose,
  cast_vote,
}

-- One atomic step of a handler or of the timer. Handlers that run at the same time interleave so.
pub data Step (st : PbftState) : PbftState → Type 0 where
  advances : (slot : Slot) → Step st (advance_to slot st)
  elects : (slot : Slot) → Step st (elect slot st)
  times_out : Step st (view_change st)

pub data Reach (st : PbftState) : PbftState → Type 0 where
  here : Reach st st
  next : {st' st'' : PbftState} → Reach st st' → Step st' st'' → Reach st st''

contains-get_elem :
    (xs : List Text) (i : ℕ)
    → i < length xs
    → (x : Text) × (get_elem? xs i ≡ some x) × (contains xs x ≡ true)
unfolding contains
contains-get_elem [] i h = absurd (omega arith)
contains-get_elem (x ∷ xs) zero h = (x, refl, ground (arith, equal_refl x))
contains-get_elem (x ∷ xs) (suc i) h =
    let (y, e, c) = contains-get_elem xs i (omega arith) in (y, e, ground arith)

contains-leader_at : (n : ℕ) (vs : List Text) → 0 < length vs → contains vs (leader_at n vs) ≡ true
unfolding leader_at
contains-leader_at n vs h =
    let (x, e, c) = contains-get_elem vs (n % length vs) (mod-lt n h) in rw (e, leader_at) c

-- The leader is a validator, and the validators stay the same.
pub record IsLed (vs : List Text) (st : PbftState) : Type 0 where
  pub same_validators : st.validators ≡ vs
  pub leader_is_validator : contains vs st.leader ≡ true

Step-IsLed :
    (vs : List Text) {st st' : PbftState} → 0 < length vs → Step st st' → IsLed vs st → IsLed vs st'
unfolding advance_to elect view_change
Step-IsLed vs {st} some_validator (advances slot) v = ground arith
Step-IsLed vs {st} some_validator (elects (height, round)) v =
    ground (arith, contains-leader_at (u64 (height + round)) vs some_validator)
Step-IsLed vs {st} some_validator times_out v =
    ground (arith, contains-leader_at (u64 (st.round + 1)) vs some_validator)

-- However the steps of the handlers and of the timer interleave, a service that has validators and
-- is led by one of them keeps its validators and goes on to be led by one of them.
pub Reach-IsLed :
    (vs : List Text) {st st' : PbftState}
    → 0 < length vs
    → IsLed vs st
    → Reach st st'
    → IsLed vs st'
Reach-IsLed vs some_validator v here = v
Reach-IsLed vs some_validator v (next r s) =
    Step-IsLed vs some_validator s (Reach-IsLed vs some_validator v r)

-- The calls of a service, one after the other: what each brings, and the time of a proposal.
pub data Call : Type 0 where
  proposes : Slot → ℕ → Call
  votes_for : Slot → Text → Call
  timeout : Call

module _ {Tree : Type 0} ⦃d : Db Tree⦄ where
  unfoldable pub call : Call → PbftService Tree → PbftService Tree
  call (proposes slot now) s = (propose slot now s).0
  call (votes_for slot node) s = (cast_vote slot node s).0
  call timeout s = record s { state = view_change s.state }

  unfoldable pub calls : List Call → PbftService Tree → PbftService Tree
  calls [] s = s
  calls (c ∷ cs) s = calls cs (call c s)

abbrev pub asked : Call → ℕ
asked (proposes (h, r) now) = h
asked (votes_for (h, r) node) = h
asked timeout = 0

abbrev pub highest : ℕ → List Call → ℕ
highest h [] = h
highest h (c ∷ cs) = highest (max h (asked c)) cs

module _ {Tree : Type 0} ⦃d : Db Tree⦄ where
  height-call :
      (c : Call) (s : PbftService Tree) → (call c s).state.height ≡ max s.state.height (asked c)
  unfolding call propose cast_vote advance_to elect view_change record_vote
  height-call (proposes (h, r) now) s = ground arith
  height-call (votes_for (h, r) node) s = ground arith
  height-call timeout s = ground arith

  -- After any calls the height is the greatest of the height before them and of the heights that
  -- the proposals and the votes among them brought.
  pub height-calls :
      (cs : List Call) (s : PbftService Tree)
      → (calls cs s).state.height ≡ highest s.state.height cs
  unfolding calls
  height-calls [] s = refl
  height-calls (c ∷ cs) s = rw (height-calls cs (call c s), height-call c s) refl
