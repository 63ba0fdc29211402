-- ===== src/NodeRuntime/Communication.antt =====
-- services/node-runtime/src/modules/communication.rs: the peers of a node and what it publishes. The
-- NATS client and `serde_json` are parameters: whether the node is connected, the bytes of a
-- message where it serialises, and whether a publication succeeds. The listeners only log.
use swarm_intelligence_netwo.Prelude.{
  Distinct-snoc, ℕ, String, ◌≡◌, refl, ap, ◌∙◌, inl, inr, Bool, not, ◌&&◌, ◌||◌, Option, none, some,
  List, [], ◌∷◌, ◌++◌, arith, if◌then◌else◌, ◌==◌, string_eq, nat_eq, pair_eq, Bool-cases, contains,
  Distinct, contains-append, contains-retain, Distinct-retain, length, retain,
}

pub data MessageType : Type 0 where
  alert : MessageType
  intelligence : MessageType
  consensus : MessageType
  heartbeat : MessageType
  model_update : MessageType
  policy_update : MessageType

pub record Message : Type 0 where
  pub id : String
  pub from_node : String
  pub to_node : Option String
  pub msg_type : MessageType
  pub payload : List ℕ
  pub timestamp : ℕ
  pub ttl : ℕ

pub record CommunicationModule : Type 0 where
  pub node_id : String
  pub peers : List String
  pub message_queue : List Message
  pub connected : Bool

-- Where a message is published: `swarm.gossip.<type>`, in small letters, or `swarm.direct.<peer>`.
pub data Subject : Type 0 where
  gossip : MessageType → Subject
  direct : String → Subject

-- Nothing is published, the message is, or an error is returned.
pub data Outcome : Type 0 where
  silent : Outcome
  published : Subject → List ℕ → Outcome
  failed : Outcome

unfoldable pub new : String → Bool → CommunicationModule
new node_id connected = record {
  node_id = node_id;
  peers = [];
  message_queue = [];
  connected = connected;
}

abbrev pub serialised : (Subject → Bool) → Subject → Option (List ℕ) → Outcome
serialised up subject none = failed
serialised up subject (some bytes) = if up subject then published subject bytes else failed

abbrev pub addressed : String → String → ℕ → Option String → MessageType → List ℕ → Message
addressed id from_node now to_node msg_type payload = record {
  id = id;
  from_node = from_node;
  to_node = to_node;
  msg_type = msg_type;
  payload = payload;
  timestamp = now;
  ttl = 10;
}

module _ (to_vec : Message → Option (List ℕ)) (up : Subject → Bool) where
  unfoldable pub broadcast : String → ℕ → MessageType → List ℕ → CommunicationModule → Outcome
  broadcast id now msg_type payload c =
      let msg = addressed id c.node_id now none msg_type payload in
      if c.connected then serialised up (gossip msg_type) (to_vec msg) else silent

  unfoldable pub send_direct :
      String → String → ℕ → MessageType → List ℕ → CommunicationModule → Outcome
  send_direct peer_id id now msg_type payload c =
      let msg = addressed id c.node_id now (some peer_id) msg_type payload in
      if c.connected then serialised up (direct peer_id) (to_vec msg) else silent

-- `Vec::push` after a test for membership
unfoldable pub add_peer : String → CommunicationModule → CommunicationModule
add_peer peer_id c =
    if contains c.peers peer_id then c else record c { peers = c.peers ++ peer_id ∷ [] }

unfoldable pub remove_peer : String → CommunicationModule → CommunicationModule
remove_peer peer_id c = record c { peers = retain (λ p. not (p == peer_id)) c.peers }

unfoldable pub peer_count : CommunicationModule → ℕ
peer_count c = length c.peers

-- A change of the peers: one joins or one leaves.
pub data Change : Type 0 where
  joins : String → Change
  leaves : String → Change

unfoldable pub change : Change → CommunicationModule → CommunicationModule
change (joins p) c = add_peer p c
change (leaves p) c = remove_peer p c

unfoldable pub change_all : List Change → CommunicationModule → CommunicationModule
change_all [] c = c
change_all (x ∷ xs) c = change_all xs (change x c)

-- Whether the last change that names the peer, if any does, lets it join.
abbrev pub joined : String → Bool → List Change → Bool
joined p was [] = was
joined p was (joins q ∷ xs) = joined p (p == q || was) xs
joined p was (leaves q ∷ xs) = joined p (not (p == q) && was) xs

change-Distinct :
    (x : Change) (c : CommunicationModule) → Distinct c.peers → Distinct (change x c).peers
unfolding change add_peer remove_peer
change-Distinct (joins p) c d = elim (Bool-cases (contains c.peers p)) [
  | inl known ↦ rw known d
  | inr new_one ↦ rw new_one (Distinct-snoc p c.peers d new_one)
]
change-Distinct (leaves p) c d = Distinct-retain (λ q. not (q == p)) c.peers d

contains-change :
    (x : Change) (c : CommunicationModule) (p : String)
    → contains (change x c).peers p ≡ joined p (contains c.peers p) (x ∷ [])
unfolding change add_peer remove_peer contains
contains-change (joins q) c p =
    ground (arith, contains-append c.peers (q ∷ []) p, string_eq.equal_iff p q)
contains-change (leaves q) c p =
    ground (arith, contains-retain (λ r. not (r == q)) c.peers p, string_eq.equal_iff p q)

joined-cons :
    (x : Change) (xs : List Change) (p : String) (was : Bool)
    → joined p (joined p was (x ∷ [])) xs ≡ joined p was (x ∷ xs)
joined-cons (joins q) xs p was = refl
joined-cons (leaves q) xs p was = refl

-- After any changes each peer is listed once if it was before, and a peer is listed just if the last
-- change that names it is that it joins, or if none names it and it was listed before.
pub change_all-joined :
    (xs : List Change) (c : CommunicationModule) (p : String)
    → Distinct c.peers
    → Distinct (change_all xs c).peers
      × (contains (change_all xs c).peers p ≡ joined p (contains c.peers p) xs)
unfolding change_all
change_all-joined [] c p d = (d, refl)
change_all-joined (x ∷ xs) c p d =
    let (d', same) = change_all-joined xs (change x c) p (change-Distinct x c d) in
    (
      d',
      same
          ∙ ap (λ (was : Bool). joined p was xs) (contains-change x c p)
          ∙ joined-cons x xs p (contains c.peers p),
    )
