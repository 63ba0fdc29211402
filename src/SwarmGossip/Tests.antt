-- ===== src/SwarmGossip/Tests.antt =====
-- Runs of the gossip service's filter and peers.
use swarm_intelligence_netwo.Prelude.{
  ℕ, ◌+◌, ◌≤◌, ◌<◌, String, ◌≡◌, refl, sym, ap, ◌∙◌, false, Option, none, some, List, [], ◌∷◌,
  arith, if◌then◌else◌, ◌==◌, string_eq, nat_eq, pair_eq, some-injective, All,
}
use swarm_intelligence_netwo.Text.{Text, text_eq}
use swarm_intelligence_netwo.Gossip.First.{first_ones}
use swarm_intelligence_netwo.SwarmGossip.{
  BloomDupFilter, GossipState, new, new_state, seen_or_insert, add_peer,
}
use swarm_intelligence_netwo.SwarmGossip.Filter.{IsSized}
use swarm_intelligence_netwo.SwarmGossip.Window.{record_all, duplicate_known}
use swarm_intelligence_netwo.SwarmGossip.Router.{Json, Turn, inbox_subject}
use swarm_intelligence_netwo.SwarmGossip.Router.Network.{
  Net, Event, says_hello, takes, hears, new_nodes, run,
}
use swarm_intelligence_netwo.SwarmGossip.Router.Lonely.{Lonely, run-Lonely}
use swarm_intelligence_netwo.SwarmGossip.Router.Ttl.{JsonLaws, IsWithin, run-IsWithin}

abbrev hash_a : String → ℕ
hash_a id = if id == "x" then 1000003 else 7

abbrev hash_b : String → ℕ
hash_b id = if id == "x" then 77 else 21

-- Two bytes, and a window of 100.
abbrev small : BloomDupFilter
small = new 16 100 5

small-IsSized : IsSized small
unfolding new
small-IsSized = record { one_byte = omega arith; mask_fits = omega arith }

some_time : 0 < small.reset_after
unfolding new
some_time = omega arith

early : 10 < small.last_reset + small.reset_after
unfolding new
early = omega arith

late : 60 < small.last_reset + small.reset_after
unfolding new
late = omega arith

duplicate_known_example :
    (f' : BloomDupFilter) × (record_all hash_a hash_b (("x", 10) ∷ ("y", 10) ∷ []) small ≡ some f')
    × (f'' : BloomDupFilter) × (seen_or_insert hash_a hash_b "x" 60 f' ≡ some (f'', false))
duplicate_known_example =
    duplicate_known hash_a hash_b "x" 10 60 (("y", 10) ∷ []) small small-IsSized some_time early
      (early, tt) late

abbrev state : GossipState
state = new_state "me" 1000 0

-- Every text is a hello of the node `a`.
abbrev json : Json Text
json = record {
  from_str = some;
  to_vec = some;
  hello_to_vec = λ e. some (b'h' ∷ []);
  msg_id = λ v. some "x";
  kind = λ v. some "hello";
  payload_node_id = λ v. some "a";
  hops = λ v. none;
  with_hops = λ n v. v;
  as_bytes = λ s. [];
  make_msg_id = λ s. s;
  hash_a = hash_a;
  hash_b = hash_b;
}

abbrev prefix : Text
prefix = b's' ∷ b'.' ∷ b'g' ∷ []

abbrev turn : Turn Unit
turn = record { ttl = 8; fanout = 4; rng = tt; now = 1 }

abbrev events : List (Event Unit)
events = says_hello 0 1 ∷ takes 1 0 turn ∷ hears 1 0 ∷ []

run-Lonely_example :
    Lonely prefix
      (run json prefix events (record { nodes = new_nodes 1000 0 ("a" ∷ "b" ∷ []); bus = [] }))
run-Lonely_example = run-Lonely json prefix ("a" ∷ "b" ∷ []) 1000 0 events

-- A value is a text whose first byte is its hops.
abbrev first_byte : Text → Option ℕ
first_byte [] = none
first_byte (b ∷ bs) = some b

abbrev counting : Json Text
counting = record {
  from_str = some;
  to_vec = some;
  hello_to_vec = λ e. some (e.hops ∷ []);
  msg_id = λ v. some "x";
  kind = λ v. none;
  payload_node_id = λ v. none;
  hops = first_byte;
  with_hops = λ n v. n ∷ v;
  as_bytes = λ s. [];
  make_msg_id = λ s. s;
  hash_a = hash_a;
  hash_b = hash_b;
}

abbrev counting_laws : JsonLaws counting
counting_laws = record {
  hops-to_vec = λ v v' bytes h read. ap first_byte (sym (some-injective (h ∙ read)));
  hops-with_hops = λ n v id has fits. refl;
  hops-hello_to_vec = λ e v bytes h read. ap first_byte (sym (some-injective (h ∙ read)));
}

-- A node that knows a peer, and a message that has made three hops.
abbrev meeting : Net
meeting = record {
  nodes =
      record {
        state = add_peer "b" (new_state "a" 1000 0);
        counters = record { duplicates = 0; received = 0; forwarded = 0 };
      }
      ∷ [];
  bus = (inbox_subject prefix, 3 ∷ []) ∷ [];
}

three_hops :
    (v : Text)
    → counting.from_str (3 ∷ []) ≡ some v
    → elim (first_byte v) [ none ↦ 0 | some n ↦ n ] ≤ 8
three_hops v h = rw (sym (some-injective h)) (omega arith)

abbrev two_turns : List (Event Unit)
two_turns = takes 0 0 turn ∷ says_hello 0 1 ∷ []

run-IsWithin_example : All (IsWithin counting 8) (run counting prefix two_turns meeting).bus
run-IsWithin_example =
    run-IsWithin counting counting_laws prefix 8 two_turns meeting (omega arith, tt)
      (three_hops, tt)
