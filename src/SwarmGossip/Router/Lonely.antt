-- ===== src/SwarmGossip/Router/Lonely.antt =====
-- services/swarm-gossip/src/main.rs: in a network of these services no one ever meets anyone.
use swarm_intelligence_netwo.Prelude.{
  ℕ, zero, suc, String, ◌≡◌, refl, sym, ap, ◌∙◌, inl, inr, Option, none, some, List, [], ◌∷◌, ◌==◌,
  string_eq, nat_eq, pair_eq, Bool-cases, some-injective, none-some, get_elem?, All, All-append,
}
use swarm_intelligence_netwo.Text.{Text, text_eq}
use swarm_intelligence_netwo.Gossip.{Sampler}
use swarm_intelligence_netwo.SwarmGossip.{GossipState, new_state}
use swarm_intelligence_netwo.SwarmGossip.Router.{
  Json, Message, Turn, Node, inbox_subject, take_message, hear, published, send_hello,
}
use swarm_intelligence_netwo.SwarmGossip.Router.Network.{
  Net, Event, says_hello, takes, hears, set_node, put_taken, put_hello, put_heard, put_inbox, step,
  run, new_nodes,
}
use swarm_intelligence_netwo.SwarmGossip.Router.Alone.{
  Quiet, IsAlone, hear-inbox, take_message-Quiet,
}

-- All that is on the bus is for inboxes, and no service has a peer.
pub record Lonely (prefix : Text) (net : Net) : Type 0 where
  pub no_peers : All (λ (n : Node). n.state.peers ≡ []) net.nodes
  pub to_inboxes : All (λ (m : Message). m.0 ≡ inbox_subject prefix) net.bus

All-get_elem? :
    {A : Type 0} (P : A → Type 0) (xs : List A) (i : ℕ) (x : A)
    → All P xs
    → get_elem? xs i ≡ some x
    → P x
All-get_elem? P [] i x all h = absurd (none-some h)
All-get_elem? P (y ∷ ys) zero x (p, ps) h = rw (sym (some-injective h)) p
All-get_elem? P (y ∷ ys) (suc i) x (p, ps) h = All-get_elem? P ys i x ps h

All-set_node :
    (P : Node → Type 0) (xs : List Node) (i : ℕ) (n : Node)
    → All P xs
    → P n
    → All P (set_node i n xs)
All-set_node P [] i n all p = tt
All-set_node P (x ∷ xs) zero n (q, qs) p = (p, qs)
All-set_node P (x ∷ xs) (suc i) n (q, qs) p = (q, All-set_node P xs i n qs p)

put_taken-Lonely :
    (prefix : Text) (i : ℕ) (net : Net) (o : Option (Node × List Message))
    → Lonely prefix net
    → Quiet o
    → Lonely prefix (put_taken i net o)
put_taken-Lonely prefix i net none l q = l
put_taken-Lonely prefix i net (some (n, out)) l (alone, nothing) = record {
  no_peers = All-set_node IsAlone net.nodes i n l.no_peers alone;
  to_inboxes =
      All-append (λ (m : Message). m.0 ≡ inbox_subject prefix) net.bus out l.to_inboxes
        (rw nothing tt);
}

published-inbox :
    (prefix : Text) (o : Option Text)
    → All (λ (m : Message). m.0 ≡ inbox_subject prefix) (published (inbox_subject prefix) o)
published-inbox prefix none = tt
published-inbox prefix (some bytes) = (refl, tt)

new_nodes-IsAlone :
    (names : List String) (second now : ℕ) → All IsAlone (new_nodes second now names)
unfolding new_state
new_nodes-IsAlone [] second now = tt
new_nodes-IsAlone (name ∷ names) second now = (refl, new_nodes-IsAlone names second now)

send_hello-inbox :
    {V : Type 0} (json : Json V) (prefix : Text) (ts : ℕ) (s : GossipState)
    → All (λ (m : Message). m.0 ≡ inbox_subject prefix) (send_hello json prefix ts s)
unfolding send_hello
send_hello-inbox json prefix ts s = published-inbox prefix (
    json.hello_to_vec (record {
      msg_id = json.make_msg_id s.node_id;
      kind = "hello";
      ts = ts;
      node_id = s.node_id;
      hops = 0;
    }))

put_hello-Lonely :
    {V : Type 0} (json : Json V) (prefix : Text) (ts : ℕ) (net : Net) (node : Option Node)
    → Lonely prefix net
    → Lonely prefix (put_hello json prefix ts net node)
put_hello-Lonely json prefix ts net none l = l
put_hello-Lonely json prefix ts net (some n) l = record {
  no_peers = l.no_peers;
  to_inboxes =
      All-append (λ (m : Message). m.0 ≡ inbox_subject prefix) net.bus
        (send_hello json prefix ts n.state) l.to_inboxes (send_hello-inbox json prefix ts n.state);
}

put_heard-Lonely :
    {V : Type 0} (json : Json V) (prefix : Text) (i : ℕ) (net : Net) (node : Option Node)
    (m : Option Message)
    → Lonely prefix net
    → ((n : Node) → node ≡ some n → n.state.peers ≡ [])
    → ((message : Message) → m ≡ some message → message.0 ≡ inbox_subject prefix)
    → Lonely prefix (put_heard json i net node m)
put_heard-Lonely json prefix i net none m l alone ours = l
put_heard-Lonely json prefix i net (some n) none l alone ours = l
put_heard-Lonely json prefix i net (some n) (some (subject, payload)) l alone ours = record {
  no_peers =
      All-set_node IsAlone net.nodes i (record n { state = hear json (subject, payload) n.state })
        l.no_peers
        (ap (λ (s : GossipState). s.peers)
            (hear-inbox json prefix subject payload n.state (ours (subject, payload) refl))
          ∙ alone n refl);
  to_inboxes = l.to_inboxes;
}

module _ {V Rng : Type 0} ⦃sampler : Sampler Rng⦄ (json : Json V) (prefix : Text) where
  put_inbox-Lonely :
      (i : ℕ) (t : Turn Rng) (net : Net) (node : Option Node) (m : Option Message)
      → Lonely prefix net
      → ((n : Node) → node ≡ some n → n.state.peers ≡ [])
      → Lonely prefix (put_inbox json prefix i t net node m)
  put_inbox-Lonely i t net none m l alone = l
  put_inbox-Lonely i t net (some n) none l alone = l
  put_inbox-Lonely i t net (some n) (some (subject, payload)) l alone =
      elim (Bool-cases (subject == inbox_subject prefix)) [
        | inl ours ↦ rw ours (
            put_taken-Lonely prefix i net (take_message json prefix t payload n) l
              (take_message-Quiet json prefix t payload n (alone n refl)))
        | inr other ↦ rw other l
      ]

  step-Lonely :
      (e : Event Rng) (net : Net) → Lonely prefix net → Lonely prefix (step json prefix e net)
  unfolding step
  step-Lonely (says_hello i ts) net l =
      put_hello-Lonely json prefix ts net (get_elem? net.nodes i) l
  step-Lonely (takes i k t) net l =
      put_inbox-Lonely i t net (get_elem? net.nodes i) (get_elem? net.bus k) l
        (λ n. All-get_elem? IsAlone net.nodes i n l.no_peers)
  step-Lonely (hears i k) net l =
      put_heard-Lonely json prefix i net (get_elem? net.nodes i) (get_elem? net.bus k) l
        (λ n. All-get_elem? IsAlone net.nodes i n l.no_peers)
        (λ m. All-get_elem? (λ (m : Message). m.0 ≡ inbox_subject prefix) net.bus k m l.to_inboxes)

  run-Lonely_from :
      (events : List (Event Rng)) (net : Net)
      → Lonely prefix net
      → Lonely prefix (run json prefix events net)
  unfolding run
  run-Lonely_from [] net l = l
  run-Lonely_from (e ∷ events) net l =
      run-Lonely_from events (step json prefix e net) (step-Lonely e net l)

  -- Any services start, and nothing but their own messages is published on the subjects. Whatever
  -- hellos they say, and whatever messages their inboxes and listeners get, in any order, no service
  -- ever has a peer, and nothing is ever published but to the inbox.
  pub run-Lonely :
      (names : List String) (second now : ℕ) (events : List (Event Rng))
      → Lonely prefix
          (run json prefix events (record { nodes = new_nodes second now names; bus = [] }))
  run-Lonely names second now events =
      run-Lonely_from events (record { nodes = new_nodes second now names; bus = [] })
        (record { no_peers = new_nodes-IsAlone names second now; to_inboxes = tt })
