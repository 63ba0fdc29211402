-- ===== src/SwarmGossip/Router/Network.antt =====
-- services/swarm-gossip/src/main.rs: a network of these services, by itself. Each message that a service
-- publishes may reach any service at any time, any number of times, or never. A turn that panics leaves
-- the network as it is.
use swarm_intelligence_netwo.Prelude.{
  ℕ, zero, suc, String, Option, none, some, List, [], ◌∷◌, ◌++◌, if◌then◌else◌, ◌==◌, string_eq,
  nat_eq, pair_eq, get_elem?,
}
use swarm_intelligence_netwo.Text.{Text, text_eq}
use swarm_intelligence_netwo.Gossip.{Sampler}
use swarm_intelligence_netwo.SwarmGossip.{new_state}
use swarm_intelligence_netwo.SwarmGossip.Router.{
  Json, Message, Turn, Node, inbox_subject, take_message, hear, send_hello,
}

-- The services, and all that they have published.
pub record Net : Type 0 where
  pub nodes : List Node
  pub bus : List Message

-- The service `i` says hello; it takes the message `k` from its inbox; its listener hears it.
pub data Event (Rng : Type 0) : Type 0 where
  says_hello : ℕ → ℕ → Event Rng
  takes : ℕ → ℕ → Turn Rng → Event Rng
  hears : ℕ → ℕ → Event Rng

abbrev pub set_node : ℕ → Node → List Node → List Node
set_node i n [] = []
set_node zero n (x ∷ xs) = n ∷ xs
set_node (suc i) n (x ∷ xs) = x ∷ set_node i n xs

abbrev pub put_taken : ℕ → Net → Option (Node × List Message) → Net
put_taken i net none = net
put_taken i net (some (n, out)) = record { nodes = set_node i n net.nodes; bus = net.bus ++ out }

module _ {V : Type 0} (json : Json V) where
  abbrev pub put_hello : Text → ℕ → Net → Option Node → Net
  put_hello prefix ts net none = net
  put_hello prefix ts net (some n) = record net {
    bus = net.bus ++ send_hello json prefix ts n.state;
  }

  abbrev pub put_heard : ℕ → Net → Option Node → Option Message → Net
  put_heard i net none m = net
  put_heard i net (some n) none = net
  put_heard i net (some n) (some m) = record net {
    nodes = set_node i (record n { state = hear json m n.state }) net.nodes;
  }

module _ {V Rng : Type 0} ⦃sampler : Sampler Rng⦄ (json : Json V) (prefix : Text) where
  -- The inbox has the messages of its own subject.
  abbrev pub put_inbox : ℕ → Turn Rng → Net → Option Node → Option Message → Net
  put_inbox i t net none m = net
  put_inbox i t net (some n) none = net
  put_inbox i t net (some n) (some (subject, payload)) =
      if subject == inbox_subject prefix
      then put_taken i net (take_message json prefix t payload n)
      else net

  unfoldable pub step : Event Rng → Net → Net
  step (says_hello i ts) net = put_hello json prefix ts net (get_elem? net.nodes i)
  step (takes i k t) net = put_inbox i t net (get_elem? net.nodes i) (get_elem? net.bus k)
  step (hears i k) net = put_heard json i net (get_elem? net.nodes i) (get_elem? net.bus k)

  unfoldable pub run : List (Event Rng) → Net → Net
  run [] net = net
  run (e ∷ events) net = run events (step e net)

-- The services of a list of names, all new.
abbrev pub new_nodes : ℕ → ℕ → List String → List Node
new_nodes second now [] = []
new_nodes second now (name ∷ names) =
    record {
      state = new_state name second now;
      counters = record { duplicates = 0; received = 0; forwarded = 0 };
    }
    ∷ new_nodes second now names
